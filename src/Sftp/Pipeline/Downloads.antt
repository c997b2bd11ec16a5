-- ===== src/Sftp/Pipeline/Downloads.antt =====
-- crates/vfs-sftp/src/quic_agent.rs, `read_file`: what a download that succeeds has written.
use mathlib.Core.Option.{some-injective}
use pfnc.Prelude.{
  ℕ, ◌+◌, ◌%◌, ◌≤◌, ◌<◌, ◌≡◌, ◌∙◌, refl, sym, ap, subst, Option, none, some, List, [], ◌∷◌, ◌++◌,
  Str, length, length-append, append_assoc, append-nil, arith,
}
use pfnc.Prelude.Words.{word_mod}
use pfnc.Effect.{Result, ok, err, out_of_fuel}
use pfnc.Vfs.{IoError}
use pfnc.Sftp.Pipeline.{
  Local, looping, left, returned, Download, DownloadStep, Downloading, CountsDelivered,
  pipeline_depth, download_result, delivers, is_refused, net_ends, writes, write_fails, drains,
  joins, starts, goes_on, new_download,
}

-- The bytes of the chunks in the channel.
abbrev flat : List (List ℕ) → List ℕ
flat [] = []
flat (c ∷ cs) = c ++ flat cs

flat-append : (xs : List (List ℕ)) (c : List ℕ) → flat (xs ++ (c ∷ [])) ≡ flat xs ++ c
flat-append [] c = append-nil c
flat-append (x ∷ xs) c = rw (flat-append xs c) (sym (append_assoc x (flat xs) c))

-- Everything that was received is in the file, in order, and both threads counted the same number of bytes.
pub record IsComplete (n : ℕ) (d : Download) : Type 0 where
  pub all_stored : d.stored ≡ d.delivered
  pub all_counted : n ≡ length d.stored % word_mod
  pub net_agrees : (m : ℕ) × (d.net ≡ some (ok m)) × (length d.stored < word_mod → m ≡ n)

-- What the caller's thread knows, at each of its places.
abbrev Knows : Local ℕ → Download → Type 0
Knows looping d =
    (d.delivered ≡ d.stored ++ flat d.queue)
    × (d.total ≡ length d.stored % word_mod)
    × length d.queue ≤ pipeline_depth
Knows (left none) d =
    (d.stored ≡ d.delivered)
    × (d.total ≡ length d.stored % word_mod)
    × (r : Result Str ℕ) × (d.net ≡ some r)
Knows (left (some _)) d = Unit {0}
Knows (returned (ok n)) d = IsComplete n d
Knows (returned (err _)) d = Unit {0}
Knows (returned out_of_fuel) d = Unit {0}

record Inv (d : Download) : Type 0 where
  knows : Knows d.caller d
  counts : (r : Result Str ℕ) → d.net ≡ some r → CountsDelivered r d.delivered

-- The same knowledge, at a place that is known.
at_place : {d : Download} {l : Local ℕ} → d.caller ≡ l → Inv d → Knows l d
at_place {d} e i = subst (λ l. Knows l d) e i.knows

count_appended :
    (t : ℕ) (xs ys : List ℕ)
    → t ≡ length xs % word_mod
    → (t + length ys) % word_mod ≡ length (xs ++ ys) % word_mod
count_appended t xs ys e = omega (arith, length-append xs ys, e)

-- The end of the network thread changes nothing of what the caller knows.
ended-Knows :
    (l : Local ℕ) (d : Download) (r : Result Str ℕ)
    → d.net ≡ none
    → Knows l d
    → Knows l (record d { net = some r })
ended-Knows looping d r running k = k
ended-Knows (left none) d r running (_, _, _, ended) = cc
ended-Knows (left (some _)) d r running k = tt
ended-Knows (returned (ok n)) d r running k = let (_, ended, _) = k.net_agrees in cc
ended-Knows (returned (err _)) d r running k = tt
ended-Knows (returned out_of_fuel) d r running k = tt

ended-Inv :
    (d : Download) (r : Result Str ℕ)
    → d.net ≡ none
    → CountsDelivered r d.delivered
    → Inv d
    → Inv (record d { net = some r })
ended-Inv d r running counted i = record {
  knows = ended-Knows d.caller d r running i.knows;
  counts = λ r' e. subst (λ x. CountsDelivered x d.delivered) (some-injective r r' e) counted;
}

joined :
    (r : Result Str ℕ) (write_err : Option IoError) (d : Download)
    → d.net ≡ some r
    → CountsDelivered r d.delivered
    → Knows (left write_err) d
    → Knows
        (returned (download_result r write_err d.total))
        (record d { caller = returned (download_result r write_err d.total) })
unfolding download_result
joined (ok m) none d ended counted (same, total, _, _) = record {
  all_stored = same;
  all_counted = total;
  net_agrees = (
    m,
    ended,
    λ small. omega (arith, counted (omega (arith, ap length same)), ap length same, total),
  );
}
joined (ok m) (some e) d ended counted k = tt
joined (err text) write_err d ended counted k = tt
joined out_of_fuel write_err d ended counted k = tt

DownloadStep-Inv : {d d' : Download} → DownloadStep d d' → Inv d → Inv d'
DownloadStep-Inv {d} (delivers chunk running here room) i =
    let (order, total, small) = at_place here i in
    record {
      knows =
          subst
            (λ l.
              Knows l
                (record d { delivered = d.delivered ++ chunk; queue = d.queue ++ (chunk ∷ []) }))
            (sym here)
            (
              ap (◌++ chunk) order
                  ∙ append_assoc d.stored (flat d.queue) chunk
                  ∙ ap (d.stored ++◌) (sym (flat-append d.queue chunk)),
              total,
              omega (arith, length-append d.queue (chunk ∷ [])),
            );
      counts = λ r ended. cc;
    }
DownloadStep-Inv {d} (is_refused write_err running here) i = ended-Inv d _ running tt i
DownloadStep-Inv {d} (net_ends r running counted) i = ended-Inv d r running counted i
DownloadStep-Inv {d} (writes chunk rest here front) i =
    let (order, total, small) = at_place here i in
    record {
      knows =
          subst
            (λ l. Knows l (record d {
              queue = rest;
              stored = d.stored ++ chunk;
              total = (d.total + length chunk) % word_mod;
            }))
            (sym here)
            (
              order
                  ∙ ap (λ q. d.stored ++ flat q) front
                  ∙ sym (append_assoc d.stored chunk (flat rest)),
              count_appended d.total d.stored chunk total,
              omega (arith, ap length front),
            );
      counts = i.counts;
    }
DownloadStep-Inv {d} (write_fails e begun missing rest here front) i = record {
  knows = tt;
  counts = i.counts;
}
DownloadStep-Inv {d} (drains r here empty ended) i =
    let (order, total, small) = at_place here i in
    record {
      knows =
          (sym (order ∙ ap (λ q. d.stored ++ flat q) empty ∙ append-nil d.stored), total, r, ended);
      counts = i.counts;
    }
DownloadStep-Inv {d} (joins write_err r here ended) i = record {
  knows = joined r write_err d ended (i.counts r ended) (at_place here i);
  counts = i.counts;
}

Downloading-Inv : {d : Download} → Downloading d → Inv d
unfolding new_download
Downloading-Inv starts = record { knows = (refl, omega arith, omega arith); counts = λ r ended. cc }
Downloading-Inv (goes_on before now) = DownloadStep-Inv now (Downloading-Inv before)

-- A download that returns `Ok(n)` is complete, however its two threads took their turns: all that the network
-- thread received is written, in its order and once, `n` is its length as a `u64`, and below 2^64 bytes it is
-- what the network thread counted. While it runs, at most four chunks wait in the channel.
pub Downloading-IsComplete :
    (d : Download)
    → Downloading d
    → ((n : ℕ) → d.caller ≡ returned (ok n) → IsComplete n d)
      × (d.caller ≡ looping → length d.queue ≤ pipeline_depth)
Downloading-IsComplete d run =
    let i = Downloading-Inv run in (λ n done. at_place done i, λ here. (at_place here i).2)
