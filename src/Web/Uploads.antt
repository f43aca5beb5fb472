-- ===== src/Web/Uploads.antt =====
-- The photo upload of the web app: `useUploadPhotos` of apps/web/src/hooks/use-event-photos.ts, and
-- `isSupportedImage` and `processPhoto` of apps/web/src/lib/image-processing.ts. The browser's canvas and
-- the two servers are arguments; they may answer from all that was asked before.
pub mod Settling
pub mod Fitting
use Prim.Native.Nat.{max}
use open_troop.Web.QueryKeys
use open_troop.Doc.Decimal.{show}
use open_troop.Prelude.{
  ℕ, zero, suc, ◌+◌, ◌*◌, ◌/◌, String, Bool, true, false, ◌&&◌, ◌||◌, Option, none, some, get_or,
  List, [], ◌∷◌, ◌++◌, map, str_eq, ltb, leb, if◌then◌else◌, or_else, any,
}
use open_troop.Doc.{Doc, num, str, arr, obj, nil, cons, end, property}
use open_troop.Web.{template, invalidate, Effect}

pub record ImageFile : Type 0 where
  pub name : String
  pub mime_type : String

pub record ProcessedPhoto : Type 0 where
  pub byte_length : ℕ
  pub width : ℕ
  pub height : ℕ

pub record UploadTarget : Type 0 where
  pub photo_id : String
  pub upload_url : String

-- What a promise comes to: a value, an `Error` with its message, or something else that was thrown
pub data Outcome (A : Type 0) : Type 0 where
  fulfilled : A → Outcome A
  error_thrown : String → Outcome A
  other_thrown : Outcome A

-- `createImageBitmap` gives the size; then the context of the canvas, and the bytes of its JPEG.
pub record Browser : Type 0 where
  pub decode : ImageFile → Outcome (ℕ × ℕ)
  pub has_context : Bool
  pub encode : ImageFile → ℕ → ℕ → Option ℕ

-- `initiate` and `complete` of the API, and the PUT to the object storage, which answers a status. Of the
-- answer to `initiate`, `uploads[0]` is what is used; `undefined_error` is the message of the error that a
-- property of `undefined` throws.
pub record Servers (W : Type 0) : Type 0 where
  pub initiate : String → Doc → W → Outcome (List UploadTarget) × W
  pub undefined_error : String
  pub put_object : String → ProcessedPhoto → W → Outcome ℕ × W
  pub complete : String → W → Outcome (Unit {0}) × W

abbrev pub max_long_edge : ℕ
max_long_edge = 2048

-- `Math.round(n * (maxEdge / longEdge))`, without the error of floating-point numbers
abbrev pub scaled : ℕ → ℕ → ℕ → ℕ
scaled n max_edge long_edge = (2 * (n * max_edge) + long_edge) / (2 * long_edge)

unfoldable pub fit_within : ℕ → ℕ → ℕ → ℕ × ℕ
fit_within width height max_edge =
    let long_edge = max width height in
    if leb long_edge max_edge
    then (width, height)
    else (scaled width max_edge long_edge, scaled height max_edge long_edge)

unfoldable pub is_supported_image : ImageFile → Bool
is_supported_image file =
    any (str_eq file.mime_type) ("image/jpeg" ∷ "image/png" ∷ "image/webp" ∷ [])

abbrev pub encoded : Option ℕ → ℕ × ℕ → Outcome ProcessedPhoto
encoded none size = error_thrown "JPEG encode failed"
encoded (some bytes) (width, height) =
    fulfilled (record { byte_length = bytes; width = width; height = height })

abbrev pub draw : Browser → ImageFile → ℕ × ℕ → Outcome ProcessedPhoto
draw browser file (width, height) =
    if browser.has_context
    then encoded (browser.encode file width height) (width, height)
    else error_thrown "Canvas 2D context unavailable"

abbrev pub and_draw : Browser → ImageFile → Outcome (ℕ × ℕ) → Outcome ProcessedPhoto
and_draw browser file (fulfilled (w, h)) = draw browser file (fit_within w h max_long_edge)
and_draw browser file (error_thrown message) = error_thrown message
and_draw browser file other_thrown = other_thrown

unfoldable pub process_photo : Browser → ImageFile → Outcome ProcessedPhoto
process_photo browser file = and_draw browser file (browser.decode file)

pub data UploadItemStatus : Type 0 where
  processing : UploadItemStatus
  uploading : UploadItemStatus
  done : UploadItemStatus
  error : UploadItemStatus
  skipped : UploadItemStatus

pub record UploadItem : Type 0 where
  pub name : String
  pub status : UploadItemStatus
  pub message : Option String

-- `{ ...it, ...patch }`
abbrev pub patch_item : UploadItemStatus → Option String → UploadItem → UploadItem
patch_item status message it = record it { status = status; message = or_else message it.message }

abbrev pub set_item : ℕ → UploadItemStatus → Option String → List UploadItem → List UploadItem
set_item index status message [] = []
set_item zero status message (it ∷ items) = patch_item status message it ∷ items
set_item (suc index) status message (it ∷ items) = it ∷ set_item index status message items

-- The list on the screen, the count of the photos that are done, and the servers
pub record Uploading (W : Type 0) : Type 0 where
  pub items : List UploadItem
  pub uploaded : ℕ
  pub world : W

abbrev pub photo_body : ProcessedPhoto → Doc
photo_body photo =
    (
      "photos",
      arr (
          cons
            (obj (
              property "content_type" (str "image/jpeg") (
                property "byte_length" (num photo.byte_length)
                  (property "width" (num photo.width) (property "height" (num photo.height) end)))))
            nil),
    )
    ∷ []

abbrev pub put_failed : ℕ → String
put_failed status = template ("Storage upload failed (" ∷ show status ∷ ")" ∷ [])

-- `put.ok`
abbrev pub is_ok : ℕ → Bool
is_ok status = leb 200 status && ltb status 300

abbrev pub first_items : List ImageFile → List UploadItem
first_items files = map (λ f. record { name = f.name; status = processing; message = none }) files

-- The state of the hook: the list, whether an upload is on, and the calls on the query client
pub record PhotoUploads (W : Type 0) : Type 0 where
  pub items : List UploadItem
  pub is_uploading : Bool
  pub calls : List Effect
  pub world : W

-- In `finally`
abbrev pub photo_effects : String → String → ℕ → List Effect
photo_effects t event_id uploaded =
    if ltb 0 uploaded
    then invalidate (QueryKeys.event_photos (some t) (some event_id))
      ∷ invalidate (QueryKeys.storage_usage (some t))
      ∷ []
    else []

abbrev pub is_empty {ℓ} : {A : Type ℓ} → List A → Bool
is_empty [] = true
is_empty (x ∷ xs) = false

module _ {W : Type 0} where
  -- `catch`
  abbrev pub caught : ℕ → Option String → Uploading W → Uploading W
  caught index message s = record s {
    items = set_item index error (some (get_or message "Upload failed")) s.items;
  }

  abbrev pub after_complete : ℕ → Outcome (Unit {0}) × W → Uploading W → Uploading W
  after_complete index (fulfilled _, w) s = record {
    items = set_item index done none s.items;
    uploaded = s.uploaded + 1;
    world = w;
  }
  after_complete index (error_thrown m, w) s = caught index (some m) (record s { world = w })
  after_complete index (other_thrown, w) s = caught index none (record s { world = w })

  abbrev pub after_put : Servers W → ℕ → UploadTarget → Outcome ℕ × W → Uploading W → Uploading W
  after_put servers index target (fulfilled status, w) s =
      if is_ok status
      then after_complete index (servers.complete target.photo_id w) s
      else caught index (some (put_failed status)) (record s { world = w })
  after_put servers index target (error_thrown m, w) s =
      caught index (some m) (record s { world = w })
  after_put servers index target (other_thrown, w) s = caught index none (record s { world = w })

  abbrev pub after_initiate :
      Servers W → ℕ → ProcessedPhoto → Outcome (List UploadTarget) × W → Uploading W → Uploading W
  after_initiate servers index photo (fulfilled [], w) s =
      caught index (some servers.undefined_error)
        (record s { items = set_item index uploading none s.items; world = w })
  after_initiate servers index photo (fulfilled (target ∷ targets), w) s =
      after_put servers index target (servers.put_object target.upload_url photo w)
        (record s { items = set_item index uploading none s.items })
  after_initiate servers index photo (error_thrown m, w) s =
      caught index (some m) (record s { world = w })
  after_initiate servers index photo (other_thrown, w) s =
      caught index none (record s { world = w })

  abbrev pub after_process :
      Servers W → String → ℕ → Outcome ProcessedPhoto → Uploading W → Uploading W
  after_process servers event_id index (fulfilled photo) s =
      after_initiate servers index photo (servers.initiate event_id (photo_body photo) s.world) s
  after_process servers event_id index (error_thrown m) s = caught index (some m) s
  after_process servers event_id index other_thrown s = caught index none s

  -- One turn of the loop
  unfoldable pub upload_picked :
      Browser → Servers W → String → ℕ → ImageFile → Uploading W → Uploading W
  upload_picked browser servers event_id index file s =
      if is_supported_image file
      then after_process servers event_id index (process_photo browser file) s
      else record s { items = set_item index skipped (some "Not a supported image type") s.items }

  unfoldable pub upload_picked_files :
      Browser → Servers W → String → ℕ → List ImageFile → Uploading W → Uploading W
  upload_picked_files browser servers event_id index [] s = s
  upload_picked_files browser servers event_id index (file ∷ files) s =
      upload_picked_files browser servers event_id (index + 1) files
        (upload_picked browser servers event_id index file s)

  abbrev pub end_upload : String → String → Uploading W → PhotoUploads W → PhotoUploads W
  end_upload t event_id s h = record {
    items = s.items;
    is_uploading = false;
    calls = h.calls ++ photo_effects t event_id s.uploaded;
    world = s.world;
  }

  unfoldable pub use_upload_photos :
      Browser → Servers W → String → String → List ImageFile → PhotoUploads W → PhotoUploads W
  use_upload_photos browser servers t event_id files h =
      if is_empty files || h.is_uploading
      then h
      else end_upload t event_id
          (upload_picked_files browser servers event_id 0 files
            (record { items = first_items files; uploaded = 0; world = h.world }))
          h

  -- `reset`
  abbrev pub reset_uploads : PhotoUploads W → PhotoUploads W
  reset_uploads h = record h { items = [] }
