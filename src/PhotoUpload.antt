-- ===== src/PhotoUpload.antt =====
-- apps/mobile/src/lib/photo-upload.ts: the upload of photos, one file after the other. What the
-- pipeline is given (the API, the image library, the transfer) is an argument.
pub mod Traces
use Prim.Native.Nat.{max}
use Prim.Native.String.{◌++◌ as join}
use open_troop.Prelude.{
  ℕ, suc, ◌+◌, String, Bool, true, false, ◌&&◌, Option, none, some, get_or, List, [], ◌∷◌, ◌++◌,
  ltb, leb, if◌then◌else◌, length,
}
use open_troop.Doc.{Json, num, str, arr, obj, nil, cons, end, property}
use open_troop.Doc.Decimal.{show}

-- A settled promise; what is thrown has a message if it is an `Error`.
pub data Attempt {ℓ} (A : Type ℓ) : Type ℓ where
  returned : A → Attempt A
  thrown : Option String → Attempt A

pub record ProcessedAsset : Type 0 where
  pub uri : String
  pub width : ℕ
  pub height : ℕ
  pub byte_length : ℕ

pub record PickedAsset : Type 0 where
  pub uri : String
  pub file_name : Option String

pub data UploadStatus : Type 0 where
  processing uploading done error : UploadStatus

pub record UploadProgress : Type 0 where
  pub index : ℕ
  pub total : ℕ
  pub status : UploadStatus
  pub file_name : String
  pub message : Option String

-- An entry of `InitiateResponse.uploads`.
pub record Target : Type 0 where
  pub photo_id : String
  pub upload_url : String

-- `api` stands here twice, at the two types at which the pipeline calls it. `undefined_error` is the
-- message of a property read of `undefined`.
pub record PipelineDeps (W : Type 0) : Type 0 where
  pub initiate : (path : String) (body : Json) → W → Attempt (List Target) × W
  pub complete : (path : String) → W → Attempt (Unit {0}) × W
  pub manipulate : (uri : String) → W → Attempt ProcessedAsset × W
  pub put_file : (url file_uri content_type : String) → W → Attempt ℕ × W
  pub undefined_error : String

pub initiate_body : ProcessedAsset → Json
initiate_body asset = obj (
    property "photos"
      (arr (
        cons
          (obj (
            property "content_type" (str "image/jpeg") (
              property "byte_length" (num asset.byte_length)
                (property "width" (num asset.width) (property "height" (num asset.height) end)))))
          nil))
      end)

abbrev pub is_stored : ℕ → Bool
is_stored status = leb 200 status && ltb status 300

-- The reports of a file so far, with the end of its `try` block.
abbrev Run : Type 0 → Type 0
Run W = Attempt (Unit {0}) × List UploadProgress × W

abbrev reports : {W : Type 0} → List UploadProgress → Attempt (Unit {0}) × W → Run W
reports log (result, w) = (result, log, w)

module _ {W : Type 0} (deps : PipelineDeps W) (event_id : String)
    (report : UploadStatus → Option String → UploadProgress) where
  store_step : Target → List UploadProgress → Attempt ℕ × W → Run W
  store_step target log (thrown message, w) = (thrown message, log, w)
  store_step target log (returned status, w) =
      if is_stored status
      then reports log (deps.complete (join "/photos/" (join target.photo_id "/complete")) w)
      else (thrown (some (join "Storage upload failed (" (join (show status) ")"))), log, w)

  put_step : ProcessedAsset → List Target → W → Run W
  put_step asset [] w =
      (thrown (some deps.undefined_error), report processing none ∷ report uploading none ∷ [], w)
  put_step asset (target ∷ targets) w =
      store_step target (report processing none ∷ report uploading none ∷ [])
        (deps.put_file target.upload_url asset.uri "image/jpeg" w)

  initiate_step : ProcessedAsset → Attempt (List Target) × W → Run W
  initiate_step asset (thrown message, w) = (thrown message, report processing none ∷ [], w)
  initiate_step asset (returned targets, w) = put_step asset targets w

  manipulate_step : Attempt ProcessedAsset × W → Run W
  manipulate_step (thrown message, w) = (thrown message, report processing none ∷ [], w)
  manipulate_step (returned asset, w) =
      initiate_step asset
        (deps.initiate (join "/events/" (join event_id "/photos/initiate")) (initiate_body asset) w)

  -- The end of the `try` block, or its `catch`: whether the file is uploaded, its reports.
  settle_file : Run W → Bool × List UploadProgress × W
  settle_file (returned _, log, w) = (true, log ++ report done none ∷ [], w)
  settle_file (thrown message, log, w) =
      (false, log ++ report error (some (get_or message "Upload failed")) ∷ [], w)

  upload_file : PickedAsset → W → Bool × List UploadProgress × W
  upload_file asset w = settle_file (manipulate_step (deps.manipulate asset.uri w))

abbrev pub shown_name : ℕ → PickedAsset → String
shown_name index asset = get_or asset.file_name (join "photo-" (show (index + 1)))

abbrev pub report_of : ℕ → ℕ → PickedAsset → UploadStatus → Option String → UploadProgress
report_of total index asset status message = record {
  index = index;
  total = total;
  status = status;
  file_name = shown_name index asset;
  message = message;
}

pub record UploadResult : Type 0 where
  pub uploaded : ℕ
  pub failed : ℕ

abbrev counted : Bool → UploadResult → UploadResult
counted true r = record r { uploaded = r.uploaded + 1 }
counted false r = record r { failed = r.failed + 1 }

module _ {W : Type 0} (deps : PipelineDeps W) (event_id : String) (total : ℕ) where
  upload_loop : ℕ → List PickedAsset → UploadResult → W → UploadResult × List UploadProgress × W
  upload_loop index [] result w = (result, [], w)
  upload_loop index (asset ∷ assets) result w =
      let (stored, log, w') = upload_file deps event_id (report_of total index asset) asset w in
      let (result', log', w'') = upload_loop (suc index) assets (counted stored result) w' in
      (result', log ++ log', w'')

-- The result, and what `onProgress` hears.
pub upload_photos :
    {W : Type 0}
    → PipelineDeps W
    → String
    → List PickedAsset
    → W
    → UploadResult × List UploadProgress × W
upload_photos deps event_id assets w =
    upload_loop deps event_id (length assets) 0 assets (record { uploaded = 0; failed = 0 }) w

-- What `context.resize` is asked for: one edge, the other follows.
pub data Resize : Type 0 where
  to_width : ℕ → Resize
  to_height : ℕ → Resize

-- `bindNativePipeline`: an image is scaled down, never up.
pub resize_of : ℕ → ℕ → ℕ → Option Resize
resize_of max_long_edge width height =
    if ltb max_long_edge (max width height)
    then some (if leb height width then to_width max_long_edge else to_height max_long_edge)
    else none

-- Opens the component, for tests that run it.
unfoldable pub run_upload : Unit {0}
unfolding upload_photos upload_loop upload_file settle_file manipulate_step initiate_step put_step
    store_step initiate_body show resize_of
run_upload = tt
