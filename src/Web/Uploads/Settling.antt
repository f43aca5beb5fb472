-- ===== src/Web/Uploads/Settling.antt =====
-- Every picked file is settled.
use open_troop.Prelude.{
  ℕ, ◌+◌, String, ◌≡◌, refl, sym, ap, ◌∙◌, subst, Bool, true, false, not, ◌||◌, Option, none, some,
  get_or, List, [], ◌∷◌, ◌++◌, append_assoc, arith, if◌then◌else◌, if-holds, length, length-append,
}
use open_troop.Web.Uploads.{
  fulfilled, error_thrown, other_thrown, is_supported_image, process_photo, uploading, done, error,
  skipped, patch_item, set_item, photo_body, put_failed, is_ok, first_items, photo_effects,
  is_empty, caught, after_complete, after_put, after_initiate, after_process, upload_picked,
  upload_picked_files, end_upload, use_upload_photos, ImageFile, ProcessedPhoto, UploadTarget,
  Outcome, Browser, Servers, UploadItemStatus, UploadItem, Uploading, PhotoUploads,
}

-- A status that nothing follows
abbrev is_final : UploadItemStatus → Bool
is_final done = true
is_final error = true
is_final skipped = true
is_final _ = false

abbrev is_skipped : UploadItemStatus → Bool
is_skipped skipped = true
is_skipped _ = false

-- What the item of a file says in the end: the file's name, and that it was skipped just where its type
-- is not supported
pub record IsSettled (file : ImageFile) (it : UploadItem) : Type 0 where
  pub name : it.name ≡ file.name
  pub final : is_final it.status ≡ true
  pub skipping : is_skipped it.status ≡ not (is_supported_image file)

-- The items are those of the files, in their order, each settled.
abbrev pub AreSettled : List ImageFile → List UploadItem → Type 0
AreSettled [] [] = Unit {0}
AreSettled (file ∷ files) (it ∷ items) = IsSettled file it × AreSettled files items
AreSettled _ _ = ⊥

abbrev done_one : UploadItemStatus → ℕ
done_one done = 1
done_one _ = 0

abbrev pub count_done : List UploadItem → ℕ
count_done [] = 0
count_done (it ∷ items) = done_one it.status + count_done items

set_item-at :
    (before : List UploadItem) (it : UploadItem) (after : List UploadItem)
    (status : UploadItemStatus) (message : Option String)
    → set_item (length before) status message (before ++ it ∷ after)
      ≡ before ++ patch_item status message it ∷ after
set_item-at [] it after status message = refl
set_item-at (b ∷ before) it after status message =
    ap (λ l. b ∷ l) (set_item-at before it after status message)

module _ {W : Type 0} (before after : List UploadItem) (file : ImageFile) where
  -- The file's turn is over: of the items, its own one has changed, and it is settled.
  record IsOver (n : ℕ) (s : Uploading W) : Type 0 where
    item : UploadItem
    items : s.items ≡ before ++ item ∷ after
    settled : IsSettled file item
    counted : s.uploaded ≡ n + done_one item.status

  record IsPending (it : UploadItem) (s : Uploading W) : Type 0 where
    items : s.items ≡ before ++ it ∷ after
    name : it.name ≡ file.name

  module _ (supported : is_supported_image file ≡ true) where
    caught-IsOver :
        (message : Option String) (it : UploadItem) (s : Uploading W)
        → IsPending it s
        → IsOver s.uploaded (caught (length before) message s)
    caught-IsOver message it s h = record {
      item = patch_item error (some (get_or message "Upload failed")) it;
      items =
          ap (set_item (length before) error (some (get_or message "Upload failed"))) h.items
          ∙ set_item-at before it after error (some (get_or message "Upload failed"));
      settled = record { name = h.name; final = refl; skipping = sym (ap not supported) };
      counted = omega arith;
    }

    after_complete-IsOver :
        (o : Outcome (Unit {0}) × W) (it : UploadItem) (s : Uploading W)
        → IsPending it s
        → IsOver s.uploaded (after_complete (length before) o s)
    after_complete-IsOver (fulfilled _, w) it s h = record {
      item = patch_item done none it;
      items =
          ap (set_item (length before) done none) h.items ∙ set_item-at before it after done none;
      settled = record { name = h.name; final = refl; skipping = sym (ap not supported) };
      counted = refl;
    }
    after_complete-IsOver (error_thrown m, w) it s h =
        caught-IsOver (some m) it (record s { world = w })
          (record { items = h.items; name = h.name })
    after_complete-IsOver (other_thrown, w) it s h =
        caught-IsOver none it (record s { world = w }) (record { items = h.items; name = h.name })

    after_put-IsOver :
        (servers : Servers W) (target : UploadTarget) (o : Outcome ℕ × W) (it : UploadItem)
        (s : Uploading W)
        → IsPending it s
        → IsOver s.uploaded (after_put servers (length before) target o s)
    after_put-IsOver servers target (fulfilled status, w) it s h =
        if-holds (IsOver s.uploaded) (is_ok status) _ _
          (λ stored. after_complete-IsOver (servers.complete target.photo_id w) it s h)
          (λ refused.
            caught-IsOver (some (put_failed status)) it (record s { world = w })
              (record { items = h.items; name = h.name }))
    after_put-IsOver servers target (error_thrown m, w) it s h =
        caught-IsOver (some m) it (record s { world = w })
          (record { items = h.items; name = h.name })
    after_put-IsOver servers target (other_thrown, w) it s h =
        caught-IsOver none it (record s { world = w }) (record { items = h.items; name = h.name })

    items_started :
        (it : UploadItem) (s : Uploading W)
        → IsPending it s
        → set_item (length before) uploading none s.items
          ≡ before ++ patch_item uploading none it ∷ after
    items_started it s h =
        ap (set_item (length before) uploading none) h.items
        ∙ set_item-at before it after uploading none

    after_initiate-IsOver :
        (servers : Servers W) (photo : ProcessedPhoto) (o : Outcome (List UploadTarget) × W)
        (it : UploadItem) (s : Uploading W)
        → IsPending it s
        → IsOver s.uploaded (after_initiate servers (length before) photo o s)
    after_initiate-IsOver servers photo (fulfilled [], w) it s h =
        caught-IsOver (some servers.undefined_error) (patch_item uploading none it)
          (record s { items = set_item (length before) uploading none s.items; world = w })
          (record { items = items_started it s h; name = h.name })
    after_initiate-IsOver servers photo (fulfilled (target ∷ targets), w) it s h =
        after_put-IsOver servers target (servers.put_object target.upload_url photo w)
          (patch_item uploading none it)
          (record s { items = set_item (length before) uploading none s.items })
          (record { items = items_started it s h; name = h.name })
    after_initiate-IsOver servers photo (error_thrown m, w) it s h =
        caught-IsOver (some m) it (record s { world = w })
          (record { items = h.items; name = h.name })
    after_initiate-IsOver servers photo (other_thrown, w) it s h =
        caught-IsOver none it (record s { world = w }) (record { items = h.items; name = h.name })

    after_process-IsOver :
        (servers : Servers W) (event_id : String) (o : Outcome ProcessedPhoto) (it : UploadItem)
        (s : Uploading W)
        → IsPending it s
        → IsOver s.uploaded (after_process servers event_id (length before) o s)
    after_process-IsOver servers event_id (fulfilled photo) it s h =
        after_initiate-IsOver servers photo (servers.initiate event_id (photo_body photo) s.world)
          it s h
    after_process-IsOver servers event_id (error_thrown m) it s h = caught-IsOver (some m) it s h
    after_process-IsOver servers event_id other_thrown it s h = caught-IsOver none it s h

  upload_picked-IsOver :
      (browser : Browser) (servers : Servers W) (event_id : String) (it : UploadItem)
      (s : Uploading W)
      → IsPending it s
      → IsOver s.uploaded (upload_picked browser servers event_id (length before) file s)
  unfolding upload_picked
  upload_picked-IsOver browser servers event_id it s h =
      if-holds (IsOver s.uploaded) (is_supported_image file) _ _
        (λ supported.
          after_process-IsOver supported servers event_id (process_photo browser file) it s h)
        (λ unsupported. record {
          item = patch_item skipped (some "Not a supported image type") it;
          items =
              ap (set_item (length before) skipped (some "Not a supported image type")) h.items
              ∙ set_item-at before it after skipped (some "Not a supported image type");
          settled = record { name = h.name; final = refl; skipping = sym (ap not unsupported) };
          counted = omega arith;
        })

module _ {W : Type 0} where
  -- All files from some place on are over.
  record AreOver (before : List UploadItem) (files : List ImageFile) (n : ℕ) (s : Uploading W)
      : Type 0 where
    rest : List UploadItem
    items : s.items ≡ before ++ rest
    settled : AreSettled files rest
    counted : s.uploaded ≡ n + count_done rest

  upload_picked_files-AreOver :
      (browser : Browser) (servers : Servers W) (event_id : String) (files : List ImageFile)
      (before : List UploadItem) (s : Uploading W)
      → s.items ≡ before ++ first_items files
      → AreOver before files s.uploaded
          (upload_picked_files browser servers event_id (length before) files s)
  unfolding upload_picked_files
  upload_picked_files-AreOver browser servers event_id [] before s h = record {
    rest = [];
    items = h;
    settled = tt;
    counted = omega arith;
  }
  upload_picked_files-AreOver browser servers event_id (file ∷ files) before s h =
      let s' : Uploading W = upload_picked browser servers event_id (length before) file s in
      let over =
        upload_picked-IsOver before (first_items files) file browser servers event_id _ s
          (record { items = h; name = refl }) in
      let e : length (before ++ over.item ∷ []) ≡ length before + 1 =
        length-append before (over.item ∷ []) in
      let later =
        upload_picked_files-AreOver browser servers event_id files (before ++ over.item ∷ []) s'
          (over.items ∙ sym (append_assoc before (over.item ∷ []) (first_items files))) in
      let same : upload_picked_files browser servers event_id (length (before ++ over.item ∷ []))
            files s'
          ≡ upload_picked_files browser servers event_id (length before + 1) files s' =
        ap (λ i. upload_picked_files browser servers event_id i files s') e in
      record {
        rest = over.item ∷ later.rest;
        items =
            ap (λ r. r.items) (sym same)
            ∙ later.items
            ∙ append_assoc before (over.item ∷ []) later.rest;
        settled = (over.settled, later.settled);
        counted = ap (λ r. r.uploaded) (sym same) ∙ later.counted ∙ omega (arith, over.counted);
      }

  end_upload-settled :
      (t event_id : String) (files : List ImageFile) (h : PhotoUploads W) (s : Uploading W)
      → AreOver [] files 0 s
      → ((end_upload t event_id s h).is_uploading ≡ false)
        × AreSettled files (end_upload t event_id s h).items
        × ((end_upload t event_id s h).calls
            ≡ h.calls ++ photo_effects t event_id (count_done (end_upload t event_id s h).items))
  end_upload-settled t event_id files h s o = (
    refl,
    subst (AreSettled files) (sym o.items) o.settled,
    ap (λ n. h.calls ++ photo_effects t event_id n)
        (o.counted ∙ zero_plus (count_done o.rest) ∙ ap count_done (sym o.items)),
  )
    where
      zero_plus : (n : ℕ) → 0 + n ≡ n
      zero_plus n = omega arith

  -- When some files are picked while no upload is on, then, whatever the browser and the two servers
  -- answer: the upload ends, each file's item is settled, as skipped just where its type is not
  -- supported, and in the order of the files; and the photos and the storage are fetched again if, and
  -- only if, one of them is done.
  pub use_upload_photos_settles :
      (browser : Browser) (servers : Servers W) (t event_id : String) (files : List ImageFile)
      (h : PhotoUploads W)
      → is_empty files ≡ false
      → h.is_uploading ≡ false
      → let h' = use_upload_photos browser servers t event_id files h in
        (h'.is_uploading ≡ false)
        × AreSettled files h'.items
        × (h'.calls ≡ h.calls ++ photo_effects t event_id (count_done h'.items))
  unfolding use_upload_photos
  use_upload_photos_settles browser servers t event_id files h some_file idle =
      let s : Uploading W = record { items = first_items files; uploaded = 0; world = h.world } in
      let run : false ≡ (is_empty files || h.is_uploading) =
        sym (ap (λ b. b || h.is_uploading) some_file ∙ idle) in
      subst
        (λ b.
          let h' : PhotoUploads W =
            if b
            then h
            else end_upload t event_id (upload_picked_files browser servers event_id 0 files s) h in
          (h'.is_uploading ≡ false)
          × AreSettled files h'.items
          × (h'.calls ≡ h.calls ++ photo_effects t event_id (count_done h'.items)))
        run
        (end_upload-settled t event_id files h
          (upload_picked_files browser servers event_id 0 files s)
          (upload_picked_files-AreOver browser servers event_id files [] s refl))
