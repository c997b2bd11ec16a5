-- ===== src/Sftp/Listing.antt =====
-- crates/vfs-sftp/src/lib.rs, `list_dir`: what is listed, and in which order.
mod Tests
use mathlib.Core.List.{Permᴰ}
use mathlib.Core.Option
use pfnc.Prelude.{
  ℕ, ◌≡◌, ◌∙◌, refl, ap, sym, subst, Bool, true, false, Bool-cases, inl, inr, Option, none, some,
  List, [], ◌∷◌, ◌++◌, map, map-append, append_assoc, append-nil, Str, sort_by,
}
use pfnc.Prelude.Sorting.{IsOrder, Ordered, sort_by-Ordered, sort_by-Permᴰ}
use pfnc.Effect.{
  M, Result, ok, err, out_of_fuel, then_run, for_each, ok-injective, ok_of_then_run, pure,
  ok_of_map_err_run, map_err_run, ◌>>=◌,
}
use pfnc.Vfs.{VfsPath, VfsError, EntryMeta, symlink}
use pfnc.Vfs.Interface.{PathLib}
use pfnc.Archive.Fs.{listed_before}
use pfnc.Archive.Fs.Order.{listed_before-IsOrder}
use pfnc.Sftp.Session.{FileStat, SftpChannel}
use pfnc.Sftp.Connect.{SftpFs}
use pfnc.Sftp.Fs.{
  list_dir, push_entry, target_if, with_target, is_link, ok_target, entry_meta_from_stat,
  map_ssh_err,
}

-- The paths of the entries that are UTF-8.
abbrev pub readable : List (Option VfsPath × FileStat) → List VfsPath
readable [] = []
readable ((none, _) ∷ entries) = readable entries
readable ((some path, _) ∷ entries) = path ∷ readable entries

abbrev pub paths_of : List EntryMeta → List VfsPath
paths_of = map (λ e. e.path)

readable-cons :
    (entry : Option VfsPath × FileStat) (entries : List (Option VfsPath × FileStat))
    → readable (entry ∷ []) ++ readable entries ≡ readable (entry ∷ entries)
readable-cons (none, _) entries = refl
readable-cons (some path, _) entries = refl

module _ {Tcp W : Type 0} (paths : PathLib) (name_before : Str → Str → Bool) (epoch : ℕ)
    (fs : SftpFs Tcp W) where
  -- An entry at `path` is what a call returns.
  abbrev Found : VfsPath → Result VfsError EntryMeta × W → Type 0
  Found path o = (m : EntryMeta) × (o.0 ≡ ok m) × (m.path ≡ path)

  path-target_if :
      (path : VfsPath) (meta : EntryMeta) (link : Bool) (w : W)
      → Found meta.path (target_if paths name_before epoch fs path meta link w)
  unfolding target_if
  path-target_if path meta true w =
      (record meta { kind = symlink (ok_target (fs.sftp.readlink path w).0) }, refl, refl)
  path-target_if path meta false w = (meta, refl, refl)

  after_target :
      (acc : List EntryMeta) (m : EntryMeta) (o : Result VfsError EntryMeta × W)
      → o.0 ≡ ok m
      → (then_run o (λ m. pure (acc ++ (m ∷ [])))).0 ≡ ok (acc ++ (m ∷ []))
  after_target acc m (ok m', w) e = ap (λ k. ok (acc ++ (k ∷ []))) (ok-injective e)
  after_target acc m (err e', w) e = cc
  after_target acc m (out_of_fuel, w) e = cc

  path-with_target :
      (path : VfsPath) (meta : EntryMeta) (w : W)
      → Found meta.path (with_target paths name_before epoch fs path meta w)
  unfolding with_target
  path-with_target path meta w = path-target_if path meta (is_link meta.kind) w

  paths_of-push_entry :
      (entry : Option VfsPath × FileStat) (acc : List EntryMeta) (w : W)
      → (out : List EntryMeta) × ((push_entry paths name_before epoch fs entry acc w).0 ≡ ok out)
        × (paths_of out ≡ paths_of acc ++ readable (entry ∷ []))
  unfolding push_entry entry_meta_from_stat
  paths_of-push_entry (none, stat) acc w = (acc, refl, sym (append-nil (paths_of acc)))
  paths_of-push_entry (some path, stat) acc w =
      let meta = entry_meta_from_stat epoch path (Option.get_or (paths.file_name path) []) stat in
      let (m, e, same) = path-with_target path meta w in
      (
        acc ++ (m ∷ []),
        after_target acc m (with_target paths name_before epoch fs path meta w) e,
        map-append (λ k. k.path) acc (m ∷ []) ∙ ap (λ p. paths_of acc ++ (p ∷ [])) same,
      )

  paths_of-for_each :
      (entries : List (Option VfsPath × FileStat)) (acc out : List EntryMeta) (w : W)
      → (for_each (push_entry paths name_before epoch fs) entries acc w).0 ≡ ok out
      → paths_of out ≡ paths_of acc ++ readable entries
  unfolding for_each
  paths_of-for_each [] acc out w done =
      sym (append-nil (paths_of out)) ∙ ap (λ k. paths_of k ++ []) (sym (ok-injective done))
  paths_of-for_each (entry ∷ entries) acc out w done =
      let (next, pushed, more) = paths_of-push_entry entry acc w in
      let (got, e, rest) =
        ok_of_then_run (push_entry paths name_before epoch fs entry acc w)
          (for_each (push_entry paths name_before epoch fs) entries) done in
      let same : next ≡ got = ok-injective (sym pushed ∙ e) in
      paths_of-for_each entries got out (push_entry paths name_before epoch fs entry acc w).1
        (sym (ap (λ o. o.0) rest) ∙ done)
      ∙ ap (λ k. paths_of k ++ readable entries) (sym same)
      ∙ ap (λ p. p ++ readable entries) more
      ∙ append_assoc (paths_of acc) (readable (entry ∷ [])) (readable entries)
      ∙ ap (λ r. paths_of acc ++ r) (readable-cons entry entries)

  -- What `list_dir` makes of the answer.
  abbrev arrange : List (Option VfsPath × FileStat) → M W VfsError (List EntryMeta)
  arrange entries = for_each (push_entry paths name_before epoch fs) entries [] >>= λ out.
      pure (sort_by (listed_before paths name_before) out)

  -- `es` is the answer of the server in order: `found` are its readable entries as they came.
  pub record Listed (path : VfsPath) (w : W) (es : List EntryMeta) : Type 0 where
    pub ordered : Ordered (listed_before paths name_before) es
    pub entries : List (Option VfsPath × FileStat)
    pub found : List EntryMeta
    pub same_paths : paths_of found ≡ readable entries
    pub answer : (fs.sftp.readdir path w).0 ≡ ok entries
    pub permuted : Permᴰ es found

  -- When `list_dir` succeeds, the directories come first and each group is in the order of the names; and the
  -- entries are, each once and none besides, those of the server's answer whose names are UTF-8. The order
  -- of the names is total and transitive.
  pub list_dir-Listed :
      (path : VfsPath) (w : W) (es : List EntryMeta)
      → IsOrder name_before
      → (list_dir paths name_before epoch fs path w).0 ≡ ok es
      → Listed path w es
  unfolding list_dir
  list_dir-Listed path w es law done =
      let read = map_err_run (map_ssh_err path) (fs.sftp.readdir path w) in
      let (entries, answered, rest) = ok_of_then_run read arrange done in
      let arranged : (arrange entries read.1).0 ≡ ok es = sym (ap (λ o. o.0) rest) ∙ done in
      let (found, kept, sorted) =
        ok_of_then_run (for_each (push_entry paths name_before epoch fs) entries [] read.1)
          (λ out. pure (sort_by (listed_before paths name_before) out)) arranged in
      let same : sort_by (listed_before paths name_before) found ≡ es =
        ok-injective (sym (ap (λ o. o.0) sorted) ∙ arranged) in
      record {
        ordered = subst (Ordered (listed_before paths name_before)) same (
            sort_by-Ordered (listed_before paths name_before)
              (listed_before-IsOrder paths name_before law) found);
        entries = entries;
        found = found;
        same_paths = paths_of-for_each entries [] found read.1 kept;
        answer = ok_of_map_err_run (map_ssh_err path) (fs.sftp.readdir path w) answered;
        permuted =
            subst (λ l. Permᴰ l found) same (sort_by-Permᴰ (listed_before paths name_before) found);
      }
