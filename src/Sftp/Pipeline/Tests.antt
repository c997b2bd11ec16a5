-- ===== src/Sftp/Pipeline/Tests.antt =====
-- crates/vfs-sftp/src/quic_agent.rs: runs of the two pipelines.
use pfnc.Prelude.{ℕ, ◌≤◌, ◌≡◌, ◌≢◌, refl, none, some, List, [], ◌∷◌, codes, length, arith}
use pfnc.Effect.{Result, ok, err}
use pfnc.Vfs.{IoError, kind_other, vfs_error, io}
use pfnc.Sftp.Pipeline.{
  looping, left, returned, Download, Downloading, Upload, Uploading, delivers, is_refused, net_ends,
  writes, write_fails, drains, joins, starts, goes_on, reads, takes, reads_end, takes_end,
  new_download, new_upload, download_result, upload_result, other_error, stopped_accepting,
  pipeline_depth,
}
use pfnc.Sftp.Pipeline.Downloads.{IsComplete, Downloading-IsComplete}
use pfnc.Sftp.Pipeline.Uploads.{Uploading-IsComplete}

abbrev downloaded : Download
downloaded = record {
  delivered = 7 ∷ 8 ∷ [];
  net = some (ok 2);
  queue = [];
  stored = 7 ∷ 8 ∷ [];
  total = 2;
  caller = returned (ok 2);
}

downloading : Downloading downloaded
unfolding new_download download_result
downloading =
    let first : Downloading
        (record new_download { delivered = 7 ∷ 8 ∷ []; queue = (7 ∷ 8 ∷ []) ∷ [] }) =
      goes_on starts (delivers (7 ∷ 8 ∷ []) refl refl (omega arith)) in
    let second : Downloading (record downloaded { net = none; caller = looping }) =
      goes_on first (writes (7 ∷ 8 ∷ []) [] refl refl) in
    let third : Downloading (record downloaded { caller = looping }) =
      goes_on second (net_ends (ok 2) refl (λ small. refl)) in
    let fourth : Downloading (record downloaded { caller = left none }) =
      goes_on third (drains (ok 2) refl refl refl) in
    goes_on fourth (joins none (ok 2) refl refl)

Downloading-IsComplete_example :
    ((n : ℕ) → downloaded.caller ≡ returned (ok n) → IsComplete n downloaded)
    × (downloaded.caller ≡ looping → length downloaded.queue ≤ pipeline_depth)
Downloading-IsComplete_example = Downloading-IsComplete downloaded downloading

abbrev uploaded : Upload
uploaded = record {
  taken = 7 ∷ 8 ∷ [];
  queue = [];
  sent = 7 ∷ 8 ∷ [];
  is_whole = some tt;
  net = some (ok 2);
  caller = returned (ok tt);
}

uploading : Uploading uploaded
unfolding new_upload upload_result
uploading =
    let first : Uploading (record new_upload { taken = 7 ∷ 8 ∷ []; queue = ok (7 ∷ 8 ∷ []) ∷ [] }) =
      goes_on starts (reads (7 ∷ 8 ∷ []) (λ h. cc) refl refl (omega arith)) in
    let second : Uploading (record new_upload {
      taken = 7 ∷ 8 ∷ [];
      queue = ok (7 ∷ 8 ∷ []) ∷ [];
      caller = left none;
    }) =
      goes_on first (reads_end refl) in
    let third : Uploading (record uploaded { is_whole = none; net = none; caller = left none }) =
      goes_on second (takes (7 ∷ 8 ∷ []) [] refl refl) in
    let fourth : Uploading (record uploaded { net = none; caller = left none }) =
      goes_on third (takes_end none refl refl refl) in
    let fifth : Uploading (record uploaded { caller = left none }) =
      goes_on fourth (net_ends (ok 2) refl refl) in
    goes_on fifth (joins none (ok 2) refl refl)

Uploading-IsComplete_example :
    (uploaded.caller ≡ returned (ok tt)
      → (uploaded.sent ≡ uploaded.taken) × (uploaded.is_whole ≡ some tt))
    × (uploaded.caller ≡ looping
        → (uploaded.is_whole ≡ none) × length uploaded.queue ≤ pipeline_depth)
    × ((e : IoError) (r : Result (List ℕ) ℕ)
        → uploaded.caller ≡ left (some e)
        → uploaded.net ≡ some r
        → upload_result r ≢ ok tt)
Uploading-IsComplete_example = Uploading-IsComplete uploaded uploading

abbrev disk_full : IoError
disk_full = record { error_kind = kind_other; message = codes "No space left on device" }

abbrev failed : Download
failed = record {
  delivered = 7 ∷ [];
  net = some (err stopped_accepting);
  queue = [];
  stored = [];
  total = 0;
  caller = returned (err (vfs_error (io (other_error stopped_accepting))));
}

-- A full disk: the network thread finds no receiver for its next chunk, and its error is the one that is returned.
hidden_write_error : Downloading failed
unfolding new_download download_result
hidden_write_error =
    let first : Downloading (record new_download { delivered = 7 ∷ []; queue = (7 ∷ []) ∷ [] }) =
      goes_on starts (delivers (7 ∷ []) refl refl (omega arith)) in
    let second : Downloading (record failed { net = none; caller = left (some disk_full) }) =
      goes_on first (write_fails disk_full [] (7 ∷ []) [] refl refl) in
    let third : Downloading (record failed { caller = left (some disk_full) }) =
      goes_on second (is_refused (some disk_full) refl refl) in
    goes_on third (joins (some disk_full) (err stopped_accepting) refl refl)
