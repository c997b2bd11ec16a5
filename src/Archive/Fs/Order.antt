-- ===== src/Archive/Fs/Order.antt =====
-- The order of a listing, which crates/vfs-archive, crates/vfs-local and crates/vfs-sftp have in common.
use pfnc.Prelude.{◌≡◌, refl, ◌⊎◌, inl, inr, Bool, true, false, if◌then◌else◌, Str}
use pfnc.Prelude.Sorting.{IsOrder}
use pfnc.Vfs.{is_dir}
use pfnc.Vfs.Interface.{PathLib}
use pfnc.Archive.Fs.{listed_before}

by_kind :
    (c d b b' : Bool)
    → (b ≡ true) ⊎ (b' ≡ true)
    → ((if c then (if d then b else true) else (if d then false else b)) ≡ true)
      ⊎ ((if d then (if c then b' else true) else (if c then false else b')) ≡ true)
by_kind true true b b' names = names
by_kind true false b b' names = inl refl
by_kind false true b b' names = inr refl
by_kind false false b b' names = names

through_kinds :
    (c d k b b' b'' : Bool)
    → (b ≡ true → b' ≡ true → b'' ≡ true)
    → (if c then (if d then b else true) else (if d then false else b)) ≡ true
    → (if d then (if k then b' else true) else (if k then false else b')) ≡ true
    → (if c then (if k then b'' else true) else (if k then false else b'')) ≡ true
through_kinds true true true b b' b'' names e e' = names e e'
through_kinds true true false b b' b'' names e e' = refl
through_kinds true false true b b' b'' names e e' = cc
through_kinds true false false b b' b'' names e e' = refl
through_kinds false true k b b' b'' names e e' = cc
through_kinds false false true b b' b'' names e e' = cc
through_kinds false false false b b' b'' names e e' = names e e'

pub listed_before-IsOrder :
    (paths : PathLib) (name_before : Str → Str → Bool)
    → IsOrder name_before
    → IsOrder (listed_before paths name_before)
listed_before-IsOrder paths name_before law = record {
  total = λ x y.
      by_kind (is_dir x.kind) (is_dir y.kind) (name_before x.name y.name)
        (name_before y.name x.name) (law.total x.name y.name);
  transitive = λ x y z.
      through_kinds (is_dir x.kind) (is_dir y.kind) (is_dir z.kind) (name_before x.name y.name)
        (name_before y.name z.name) (name_before x.name z.name)
        (law.transitive x.name y.name z.name);
}
