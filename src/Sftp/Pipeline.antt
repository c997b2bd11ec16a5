-- ===== src/Sftp/Pipeline.antt =====
-- crates/vfs-sftp/src/quic_agent.rs: `read_file` and `write_file` of `QuicAgentHandle`, each with its two threads and
-- the bounded channel between them, as step relations. The network thread runs the client of
-- crates/agent-linux/src/lib.rs, whose `on_chunk` and `next_chunk` are the steps that use the channel; an error of it is
-- its text. What the statistics log is left out.
mod Downloads
mod Uploads
mod Tests
use pfnc.Prelude.{
  ℕ, ◌+◌, ◌≤◌, ◌<◌, ◌≡◌, ◌≢◌, Option, none, some, List, [], ◌∷◌, ◌++◌, Str, codes, length,
}
use pfnc.Prelude.Words.{add_word, word_mod}
use pfnc.Effect.{Result, ok, err, out_of_fuel}
use pfnc.Vfs.{IoError, JobError, vfs_error, io, kind_other}

abbrev pub pipeline_depth : ℕ
pipeline_depth = 4

-- `std::io::Error::other`
abbrev pub other_error : Str → IoError
other_error text = record { error_kind = kind_other; message = text }

abbrev pub stopped_accepting : Str
stopped_accepting = codes "local writer stopped accepting data"

-- The thread of the caller: in its loop, out of it with the channel dropped, or done.
pub data Local (A : Type 0) : Type 0 where
  looping : Local A
  left : Option IoError → Local A
  returned : Result JobError A → Local A

-- A download. `delivered` is what `on_chunk` passed on so far, `stored` what `writer` took; `net` is the result of
-- the network thread, and `none` while it runs.
pub record Download : Type 0 where
  pub delivered : List ℕ
  pub net : Option (Result Str ℕ)
  pub queue : List (List ℕ)
  pub stored : List ℕ
  pub total : ℕ
  pub caller : Local ℕ

unfoldable pub new_download : Download
new_download = record {
  delivered = [];
  net = none;
  queue = [];
  stored = [];
  total = 0;
  caller = looping;
}

unfoldable pub download_result : Result Str ℕ → Option IoError → ℕ → Result JobError ℕ
download_result (ok total_read) none total = ok total
download_result (ok total_read) (some e) total = err (vfs_error (io e))
download_result (err text) write_err total = err (vfs_error (io (other_error text)))
download_result out_of_fuel write_err total = out_of_fuel

-- `pfnc_agent_linux::read_file` counts, in a `u64`, what it passed to `on_chunk`; it fails with any text.
abbrev pub CountsDelivered : Result Str ℕ → List ℕ → Type 0
CountsDelivered (ok n) delivered = length delivered < word_mod → n ≡ length delivered
CountsDelivered (err text) delivered = Unit {0}
CountsDelivered out_of_fuel delivered = ⊥

pub data DownloadStep (d : Download) : Download → Type 0 where
  -- `tx.send` waits while the channel is full.
  delivers :
      (chunk : List ℕ)
      → d.net ≡ none
      → d.caller ≡ looping
      → length d.queue < pipeline_depth
      → DownloadStep d
          (record d { delivered = d.delivered ++ chunk; queue = d.queue ++ (chunk ∷ []) })
  -- Without a receiver it fails, and `?` ends the network thread.
  is_refused :
      (write_err : Option IoError)
      → d.net ≡ none
      → d.caller ≡ left write_err
      → DownloadStep d (record d { net = some (err stopped_accepting) })
  net_ends :
      (r : Result Str ℕ)
      → d.net ≡ none
      → CountsDelivered r d.delivered
      → DownloadStep d (record d { net = some r })
  writes :
      (chunk : List ℕ) (rest : List (List ℕ))
      → d.caller ≡ looping
      → d.queue ≡ chunk ∷ rest
      → DownloadStep d (record d {
        queue = rest;
        stored = d.stored ++ chunk;
        total = add_word d.total (length chunk);
      })
  -- `write_all` may have written the first bytes of the chunk.
  write_fails :
      (e : IoError) (begun missing : List ℕ) (rest : List (List ℕ))
      → d.caller ≡ looping
      → d.queue ≡ (begun ++ missing) ∷ rest
      → DownloadStep d (record d { queue = []; stored = d.stored ++ begun; caller = left (some e) })
  -- The channel is closed when the network thread has ended and nothing is left in it.
  drains :
      (r : Result Str ℕ)
      → d.caller ≡ looping
      → d.queue ≡ []
      → d.net ≡ some r
      → DownloadStep d (record d { caller = left none })
  joins :
      (write_err : Option IoError) (r : Result Str ℕ)
      → d.caller ≡ left write_err
      → d.net ≡ some r
      → DownloadStep d (record d { caller = returned (download_result r write_err d.total) })

pub data Downloading : Download → Type 0 where
  starts : Downloading new_download
  goes_on : {d d' : Download} → Downloading d → DownloadStep d d' → Downloading d'

-- An upload. `taken` is what `reader` gave, `sent` what `next_chunk` handed to the client; `is_whole` says that the
-- client was told of the end.
pub record Upload : Type 0 where
  pub taken : List ℕ
  pub queue : List (Result IoError (List ℕ))
  pub sent : List ℕ
  pub is_whole : Option (Unit {0})
  pub net : Option (Result Str ℕ)
  pub caller : Local (Unit {0})

unfoldable pub new_upload : Upload
new_upload = record {
  taken = [];
  queue = [];
  sent = [];
  is_whole = none;
  net = none;
  caller = looping;
}

unfoldable pub upload_result : Result Str ℕ → Result JobError (Unit {0})
upload_result (ok _) = ok tt
upload_result (err text) = err (vfs_error (io (other_error text)))
upload_result out_of_fuel = out_of_fuel

-- `pfnc_agent_linux::write_file` succeeds only after `next_chunk` gave 0; it can fail at any time.
abbrev pub ToldOfEnd : Result Str ℕ → Upload → Type 0
ToldOfEnd (ok n) u = u.is_whole ≡ some tt
ToldOfEnd (err text) u = Unit {0}
ToldOfEnd out_of_fuel u = ⊥

pub data UploadStep (u : Upload) : Upload → Type 0 where
  reads :
      (chunk : List ℕ)
      → chunk ≢ []
      → u.caller ≡ looping
      → u.net ≡ none
      → length u.queue < pipeline_depth
      → UploadStep u (record u { taken = u.taken ++ chunk; queue = u.queue ++ (ok chunk ∷ []) })
  -- `reader.read` gave a chunk, and `tx.send` finds no receiver.
  send_fails :
      (chunk : List ℕ) (r : Result Str ℕ)
      → u.caller ≡ looping
      → u.net ≡ some r
      → UploadStep u (record u { taken = u.taken ++ chunk; caller = left none })
  reads_end : u.caller ≡ looping → UploadStep u (record u { caller = left none })
  read_fails :
      (e : IoError)
      → u.caller ≡ looping
      → u.net ≡ none
      → length u.queue < pipeline_depth
      → UploadStep u (record u { queue = u.queue ++ (err e ∷ []); caller = left (some e) })
  read_fails_late :
      (e : IoError) (r : Result Str ℕ)
      → u.caller ≡ looping
      → u.net ≡ some r
      → UploadStep u (record u { caller = left (some e) })
  takes :
      (chunk : List ℕ) (rest : List (Result IoError (List ℕ)))
      → u.net ≡ none
      → u.queue ≡ ok chunk ∷ rest
      → UploadStep u (record u { queue = rest; sent = u.sent ++ chunk })
  -- An error of `reader` ends the client, whose receiver goes with it.
  takes_error :
      (e : IoError) (rest : List (Result IoError (List ℕ)))
      → u.net ≡ none
      → u.queue ≡ err e ∷ rest
      → UploadStep u (record u { queue = []; net = some (err e.message) })
  -- `rx.recv` fails when the sender is gone and the channel is empty.
  takes_end :
      (read_err : Option IoError)
      → u.net ≡ none
      → u.queue ≡ []
      → u.caller ≡ left read_err
      → UploadStep u (record u { is_whole = some tt })
  net_ends :
      (r : Result Str ℕ)
      → u.net ≡ none
      → ToldOfEnd r u
      → UploadStep u (record u { queue = []; net = some r })
  joins :
      (read_err : Option IoError) (r : Result Str ℕ)
      → u.caller ≡ left read_err
      → u.net ≡ some r
      → UploadStep u (record u { caller = returned (upload_result r) })

pub data Uploading : Upload → Type 0 where
  starts : Uploading new_upload
  goes_on : {u u' : Upload} → Uploading u → UploadStep u u' → Uploading u'
