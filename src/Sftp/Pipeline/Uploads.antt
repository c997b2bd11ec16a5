-- ===== src/Sftp/Pipeline/Uploads.antt =====
-- crates/vfs-sftp/src/quic_agent.rs, `write_file`: what an upload that succeeds has sent.
use mathlib.Core.Option.{some-injective}
use pfnc.Prelude.{
  ℕ, ◌≤◌, ◌≡◌, ◌≢◌, ◌∙◌, refl, sym, ap, subst, Option, none, some, List, [], ◌∷◌, ◌++◌, Str, length,
  length-append, append_assoc, append-nil, All, All-append, arith,
}
use pfnc.Effect.{Result, ok, err, out_of_fuel}
use pfnc.Vfs.{IoError}
use pfnc.Sftp.Pipeline.{
  Local, looping, left, returned, Upload, UploadStep, Uploading, ToldOfEnd, pipeline_depth,
  upload_result, new_upload, reads, send_fails, reads_end, read_fails, read_fails_late, takes,
  takes_error, takes_end, net_ends, joins, starts, goes_on,
}

-- The bytes of the chunks in the channel.
abbrev flat : List (Result IoError (List ℕ)) → List ℕ
flat [] = []
flat (ok c ∷ q) = c ++ flat q
flat (err _ ∷ q) = flat q
flat (out_of_fuel ∷ q) = flat q

abbrev IsOk : Result IoError (List ℕ) → Type 0
IsOk (ok _) = Unit {0}
IsOk (err _) = ⊥
IsOk out_of_fuel = ⊥

abbrev EndsInError : List (Result IoError (List ℕ)) → Type 0
EndsInError [] = ⊥
EndsInError (ok _ ∷ []) = ⊥
EndsInError (out_of_fuel ∷ []) = ⊥
EndsInError (err _ ∷ []) = Unit {0}
EndsInError (_ ∷ r ∷ q) = EndsInError (r ∷ q)

flat-append :
    (q : List (Result IoError (List ℕ))) (c : List ℕ) → flat (q ++ (ok c ∷ [])) ≡ flat q ++ c
flat-append [] c = append-nil c
flat-append (ok x ∷ q) c = rw (flat-append q c) (sym (append_assoc x (flat q) c))
flat-append (err _ ∷ q) c = flat-append q c
flat-append (out_of_fuel ∷ q) c = flat-append q c

snoc-EndsInError :
    (q : List (Result IoError (List ℕ))) (e : IoError) → EndsInError (q ++ (err e ∷ []))
snoc-EndsInError [] e = tt
snoc-EndsInError (ok _ ∷ []) e = tt
snoc-EndsInError (err _ ∷ []) e = tt
snoc-EndsInError (out_of_fuel ∷ []) e = tt
snoc-EndsInError (ok _ ∷ y ∷ q) e = snoc-EndsInError (y ∷ q) e
snoc-EndsInError (err _ ∷ y ∷ q) e = snoc-EndsInError (y ∷ q) e
snoc-EndsInError (out_of_fuel ∷ y ∷ q) e = snoc-EndsInError (y ∷ q) e

tail-EndsInError :
    (c : List ℕ) (q : List (Result IoError (List ℕ))) → EndsInError (ok c ∷ q) → EndsInError q
tail-EndsInError c [] h = absurd h
tail-EndsInError c (r ∷ q) h = h

-- The channel holds what was read and is not sent yet.
record Queued (u : Upload) : Type 0 where
  order : u.taken ≡ u.sent ++ flat u.queue
  no_error : All IsOk u.queue

-- What the caller's thread knows, at each of its places.
abbrev Knows : Local (Unit {0}) → Upload → Type 0
Knows looping u = (u.is_whole ≡ none) × (u.net ≡ none → Queued u) × length u.queue ≤ pipeline_depth
Knows (left none) u =
    (u.is_whole ≡ some tt → (u.sent ≡ u.taken) × (u.queue ≡ [])) × (u.net ≡ none → Queued u)
Knows (left (some _)) u = (u.is_whole ≡ none) × (u.net ≡ none → EndsInError u.queue)
Knows (returned (ok _)) u =
    (u.sent ≡ u.taken) × (u.is_whole ≡ some tt) × (n : ℕ) × (u.net ≡ some (ok n))
Knows (returned (err _)) u = Unit {0}
Knows (returned out_of_fuel) u = Unit {0}

record Inv (u : Upload) : Type 0 where
  knows : Knows u.caller u
  told : (n : ℕ) → u.net ≡ some (ok n) → u.is_whole ≡ some tt

at_place : {u : Upload} {l : Local (Unit {0})} → u.caller ≡ l → Inv u → Knows l u
at_place {u} e i = subst (λ l. Knows l u) e i.knows

-- The end of the network thread, which empties the channel.
ended-Knows :
    (l : Local (Unit {0})) (u : Upload) (r : Result Str ℕ)
    → u.net ≡ none
    → Knows l u
    → Knows l (record u { queue = []; net = some r })
ended-Knows looping u r running (whole, _, _) = (whole, λ h. cc, omega arith)
ended-Knows (left none) u r running (whole, _) = (λ h. ((whole h).0, refl), λ h. cc)
ended-Knows (left (some _)) u r running (whole, _) = (whole, λ h. cc)
ended-Knows (returned (ok _)) u r running (_, _, _, ended) = cc
ended-Knows (returned (err _)) u r running k = tt
ended-Knows (returned out_of_fuel) u r running k = tt

-- A chunk that the network thread takes.
took-Queued :
    (u : Upload) (chunk : List ℕ) (rest : List (Result IoError (List ℕ)))
    → u.queue ≡ ok chunk ∷ rest
    → Queued u
    → Queued (record u { queue = rest; sent = u.sent ++ chunk })
took-Queued u chunk rest front q = record {
  order = q.order ∙ ap (λ x. u.sent ++ flat x) front ∙ sym (append_assoc u.sent chunk (flat rest));
  no_error = (subst (All IsOk) front q.no_error).1;
}

took-Knows :
    (l : Local (Unit {0})) (u : Upload) (chunk : List ℕ) (rest : List (Result IoError (List ℕ)))
    → u.net ≡ none
    → u.queue ≡ ok chunk ∷ rest
    → ((n : ℕ) → u.net ≡ some (ok n) → u.is_whole ≡ some tt)
    → Knows l u
    → Knows l (record u { queue = rest; sent = u.sent ++ chunk })
took-Knows looping u chunk rest running front told (whole, queued, small) =
    (whole, λ h. took-Queued u chunk rest front (queued running), omega (arith, ap length front))
took-Knows (left none) u chunk rest running front told (whole, queued) =
    (λ h. let (_, empty) = whole h in cc, λ h. took-Queued u chunk rest front (queued running))
took-Knows (left (some _)) u chunk rest running front told (whole, ends) =
    (whole, λ h. tail-EndsInError chunk rest (subst EndsInError front (ends running)))
took-Knows (returned (ok _)) u chunk rest running front told (_, _, _, ended) = cc
took-Knows (returned (err _)) u chunk rest running front told k = tt
took-Knows (returned out_of_fuel) u chunk rest running front told k = tt

-- What the caller's thread passes on keeps the order.
read-Queued :
    (u : Upload) (chunk : List ℕ)
    → Queued u
    → Queued (record u { taken = u.taken ++ chunk; queue = u.queue ++ (ok chunk ∷ []) })
read-Queued u chunk q = record {
  order =
      ap (◌++ chunk) q.order
      ∙ append_assoc u.sent (flat u.queue) chunk
      ∙ ap (u.sent ++◌) (sym (flat-append u.queue chunk));
  no_error = All-append IsOk u.queue (ok chunk ∷ []) q.no_error (tt, tt);
}

-- The result of a thread that has ended.
joined :
    (read_err : Option IoError) (r : Result Str ℕ) (u : Upload)
    → u.net ≡ some r
    → ((n : ℕ) → u.net ≡ some (ok n) → u.is_whole ≡ some tt)
    → Knows (left read_err) u
    → Knows (returned (upload_result r)) (record u { caller = returned (upload_result r) })
unfolding upload_result
joined none (ok n) u ended told (whole, _) = ((whole (told n ended)).0, told n ended, n, ended)
joined (some e) (ok n) u ended told (whole, _) = let done = told n ended in cc
joined read_err (err text) u ended told k = tt
joined read_err out_of_fuel u ended told k = tt

-- The end of the network thread.
ended-Inv :
    (u : Upload) (r : Result Str ℕ)
    → u.net ≡ none
    → ToldOfEnd r u
    → Inv u
    → Inv (record u { queue = []; net = some r })
ended-Inv u r running end i = record {
  knows = ended-Knows u.caller u r running i.knows;
  told = λ n e. subst (λ x. ToldOfEnd x u) (some-injective r (ok n) e) end;
}

-- The client is told of the end.
end_told-Knows :
    (read_err : Option IoError) (u : Upload)
    → u.net ≡ none
    → u.queue ≡ []
    → Knows (left read_err) u
    → Knows (left read_err) (record u { is_whole = some tt })
end_told-Knows none u running empty (whole, queued) =
    let q = queued running in
    (
      λ h. (sym (q.order ∙ ap (λ x. u.sent ++ flat x) empty ∙ append-nil u.sent), empty),
      λ h. record { order = q.order; no_error = q.no_error },
    )
end_told-Knows (some e) u running empty (whole, ends) =
    absurd (subst EndsInError empty (ends running))

UploadStep-Inv : {u u' : Upload} → UploadStep u u' → Inv u → Inv u'
UploadStep-Inv {u} (reads chunk some_read here running room) i =
    let (whole, queued, small) = at_place here i in
    record {
      knows =
          subst
            (λ l.
              Knows l (record u { taken = u.taken ++ chunk; queue = u.queue ++ (ok chunk ∷ []) }))
            (sym here)
            (
              whole,
              λ h. read-Queued u chunk (queued h),
              omega (arith, length-append u.queue (ok chunk ∷ [])),
            );
      told = i.told;
    }
UploadStep-Inv {u} (send_fails chunk r here ended) i =
    let (whole, _, _) = at_place here i in record { knows = (λ h. cc, λ h. cc); told = i.told }
UploadStep-Inv {u} (reads_end here) i =
    let (whole, queued, _) = at_place here i in
    record {
      knows = (λ h. cc, λ h. let q = queued h in record { order = q.order; no_error = q.no_error });
      told = i.told;
    }
UploadStep-Inv {u} (read_fails e here running room) i =
    let (whole, _, _) = at_place here i in
    record { knows = (whole, λ h. snoc-EndsInError u.queue e); told = i.told }
UploadStep-Inv {u} (read_fails_late e r here ended) i =
    let (whole, _, _) = at_place here i in record { knows = (whole, λ h. cc); told = i.told }
UploadStep-Inv {u} (takes chunk rest running front) i = record {
  knows = took-Knows u.caller u chunk rest running front i.told i.knows;
  told = i.told;
}
UploadStep-Inv {u} (takes_error e rest running front) i = ended-Inv u _ running tt i
UploadStep-Inv {u} (takes_end read_err running empty here) i = record {
  knows =
      subst (λ l. Knows l (record u { is_whole = some tt })) (sym here)
        (end_told-Knows read_err u running empty (at_place here i));
  told = λ n h. refl;
}
UploadStep-Inv {u} (net_ends r running end) i = ended-Inv u r running end i
UploadStep-Inv {u} (joins read_err r here ended) i = record {
  knows = joined read_err r u ended i.told (at_place here i);
  told = i.told;
}

Uploading-Inv : {u : Upload} → Uploading u → Inv u
unfolding new_upload
Uploading-Inv starts = record {
  knows = (refl, λ h. record { order = refl; no_error = tt }, omega arith);
  told = λ n e. cc;
}
Uploading-Inv (goes_on before now) = UploadStep-Inv now (Uploading-Inv before)

-- After an error of `reader` the caller gets an error, whatever ended the network thread.
failed_reading-Fails :
    (r : Result Str ℕ) (u : Upload)
    → u.net ≡ some r
    → u.is_whole ≡ none
    → ((n : ℕ) → u.net ≡ some (ok n) → u.is_whole ≡ some tt)
    → upload_result r ≢ ok tt
unfolding upload_result
failed_reading-Fails (ok n) u ended part told h = let whole = told n ended in cc
failed_reading-Fails (err text) u ended part told h = cc
failed_reading-Fails out_of_fuel u ended part told h = cc

-- An upload that returns `Ok(())` is complete, however its two threads took their turns: the client got every byte
-- that `reader` gave, in its order and once, and was told of the end. While the reading goes on, the client is not
-- told of the end and at most four chunks wait in the channel. After an error of `reader`, what the caller
-- returns is never `Ok`.
pub Uploading-IsComplete :
    (u : Upload)
    → Uploading u
    → (u.caller ≡ returned (ok tt) → (u.sent ≡ u.taken) × (u.is_whole ≡ some tt))
      × (u.caller ≡ looping → (u.is_whole ≡ none) × length u.queue ≤ pipeline_depth)
      × ((e : IoError) (r : Result Str ℕ)
          → u.caller ≡ left (some e)
          → u.net ≡ some r
          → upload_result r ≢ ok tt)
Uploading-IsComplete u run =
    let i = Uploading-Inv run in
    (
      λ done. let (same, whole, _, _) = at_place done i in (same, whole),
      λ here. let (whole, _, small) = at_place here i in (whole, small),
      λ e r here ended. failed_reading-Fails r u ended (at_place here i).0 i.told,
    )
