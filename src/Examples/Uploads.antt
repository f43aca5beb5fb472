-- ===== src/Examples/Uploads.antt =====
-- Photo uploads at concrete inputs.
use open_troop.Prelude.{ℕ, suc, ◌%◌, ◌≡◌, refl, none, some, List, [], ◌∷◌, ◌==◌, if◌then◌else◌}
use open_troop.PhotoUpload.{upload_photos, run_upload, returned, PickedAsset, PipelineDeps}

-- The storage refuses every second file; the world counts the transfers.
abbrev flaky : PipelineDeps ℕ
flaky = record {
  initiate = λ path body w. (returned (record { photo_id = "p"; upload_url = "u" } ∷ []), w);
  complete = λ path w. (returned tt, w);
  manipulate =
      λ uri w. (returned (record { uri = uri; width = 2; height = 1; byte_length = 9 }), w);
  put_file = λ url file_uri content_type w. (returned (if w % 2 == 0 then 200 else 503), suc w);
  undefined_error = "undefined";
}

abbrev two_photos : List PickedAsset
two_photos =
    record { uri = "a"; file_name = some "a.jpg" } ∷ record { uri = "b"; file_name = none } ∷ []

flaky_counts : (upload_photos flaky "e1" two_photos 0).0 ≡ record { uploaded = 1; failed = 1 }
unfolding run_upload
flaky_counts = refl
