-- ===== src/PhotoUpload/Traces.antt =====
-- What the uploads count and report: each file is settled once, on its own, whatever the others do.
use Prim.Native.Nat.{max}
use Prim.Native.String.{◌++◌ as join}
use open_troop.Prelude.{
  ℕ, suc, ◌+◌, ◌≤◌, ◌<◌, String, ◌≡◌, ◌⊎◌, inl, inr, Bool, true, false, Option, none, some, List,
  [], ◌∷◌, ◌++◌, arith, ltb, leb, Bool-cases,
}
use open_troop.PhotoUpload.{
  returned, initiate_body, report_of, to_width, to_height, resize_of, ProcessedAsset, PickedAsset,
  UploadStatus, processing, uploading, done, error, UploadProgress, Target, PipelineDeps,
  UploadResult,
}

module _ {W : Type 0} (deps : PipelineDeps W) (event_id : String) where
  -- The calls for a file that is uploaded, each in the world that the one before left: the image is made,
  -- a target is given, the storage answers the transfer with a status of success, and the photo is
  -- reported complete.
  pub record IsStoredFile (picked : PickedAsset) (before : W) : Type 0 where
    pub asset : ProcessedAsset
    pub target : Target
    pub targets : List Target
    pub status : ℕ
    pub w1 : W
    pub w2 : W
    pub w3 : W
    pub made : deps.manipulate picked.uri before ≡ (returned asset, w1)
    pub initiated :
        deps.initiate (join "/events/" (join event_id "/photos/initiate")) (initiate_body asset) w1
        ≡ (returned (target ∷ targets), w2)
    pub put : deps.put_file target.upload_url asset.uri "image/jpeg" w2 ≡ (returned status, w3)
    pub success : (200 ≤ status) × (status < 300)
    pub completed :
        (deps.complete (join "/photos/" (join target.photo_id "/complete")) w3).0 ≡ returned tt

  -- The reports that one file may make, and whether it counts as uploaded.
  pub data IsFileTrace (report : UploadStatus → Option String → UploadProgress)
      (picked : PickedAsset) (before : W) : List UploadProgress → Bool → Type 0 where
    not_begun :
        (message : String)
        → IsFileTrace report picked before
            (report processing none ∷ report error (some message) ∷ [])
            false
    broken_off :
        (message : String)
        → IsFileTrace report picked before
            (report processing none ∷ report uploading none ∷ report error (some message) ∷ [])
            false
    stored :
        IsStoredFile picked before
        → IsFileTrace report picked before
            (report processing none ∷ report uploading none ∷ report done none ∷ [])
            true

  -- The reports of the files from number `index` on, in their order, with how many are uploaded and how
  -- many failed; each file begins in the world that the one before left.
  pub data AreTraces (total : ℕ)
      : ℕ → List PickedAsset → W → List UploadProgress → ℕ → ℕ → Type 0 where
    finished : (index : ℕ) (w : W) → AreTraces total index [] w [] 0 0
    uploaded_file :
        (index : ℕ) (asset : PickedAsset) (assets : List PickedAsset) (w w' : W)
        (log logs : List UploadProgress) (n m : ℕ)
        → IsFileTrace (report_of total index asset) asset w log true
        → AreTraces total (suc index) assets w' logs n m
        → AreTraces total index (asset ∷ assets) w (log ++ logs) (suc n) m
    failed_file :
        (index : ℕ) (asset : PickedAsset) (assets : List PickedAsset) (w w' : W)
        (log logs : List UploadProgress) (n m : ℕ)
        → IsFileTrace (report_of total index asset) asset w log false
        → AreTraces total (suc index) assets w' logs n m
        → AreTraces total index (asset ∷ assets) w (log ++ logs) n (suc m)

module _ {W : Type 0} (deps : PipelineDeps W) (event_id : String)
    (report : UploadStatus → Option String → UploadProgress) where
  abbrev Traced : PickedAsset → W → Bool × List UploadProgress × W → Type 0
  Traced picked before x = IsFileTrace deps event_id report picked before x.1 x.0

module _ {W : Type 0} (deps : PipelineDeps W) (event_id : String) (total : ℕ) where
  -- What the loop adds to the counters, as traces.
  record Uploads (index : ℕ) (assets : List PickedAsset) (before : UploadResult) (w : W)
      (x : UploadResult × List UploadProgress × W) : Type 0 where
    n : ℕ
    m : ℕ
    traces : AreTraces deps event_id total index assets w x.1 n m
    uploaded : x.0.uploaded ≡ before.uploaded + n
    failed : x.0.failed ≡ before.failed + m

-- An image is resized exactly if an edge is longer than the bound; then the edge that is set to the
-- bound is the longer one, so that no edge grows.
pub resize_of_lem :
    (bound width height : ℕ)
    → ((resize_of bound width height ≡ none) × (width ≤ bound) × (height ≤ bound))
      ⊎ (((resize_of bound width height ≡ some (to_width bound))
            × (bound < width)
            × (height ≤ width))
          ⊎ ((resize_of bound width height ≡ some (to_height bound))
              × (bound < height)
              × (width ≤ height)))
unfolding resize_of
resize_of_lem bound width height = elim (Bool-cases (ltb bound (max width height))) [
  | inl large ↦ elim (Bool-cases (leb height width)) [
    | inl wide ↦ inr (inl (rw (large, wide, resize_of), ground (arith, large, wide), ground arith))
    | inr tall ↦ inr (inr (rw (large, tall, resize_of), ground (arith, large, tall), ground arith))
  ]
  | inr small ↦ inl (rw (small, resize_of), ground arith, ground arith)
]
