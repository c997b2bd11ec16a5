-- ===== src/Config/Profiles.antt =====
-- crates/config/src/lib.rs, `upsert_profile`: the saved profiles as a map from their ids.
use pfnc.Prelude.{
  ◌≡◌, refl, Option, none, some, List, [], ◌∷◌, Str, str_eq, str_eq_iff, if◌then◌else◌, arith,
  Bool-cases, inl, inr,
}
use pfnc.Config.{ConnectionProfileConfig, Config, upsert, upsert_profile}

abbrev pub lookup_profile : Str → List ConnectionProfileConfig → Option ConnectionProfileConfig
lookup_profile id [] = none
lookup_profile id (p ∷ ps) =
    let rest = lookup_profile id ps in if str_eq p.id id then some p else rest

-- No two profiles share an id.
abbrev pub AreDistinct : List ConnectionProfileConfig → Type 0
AreDistinct [] = Unit
AreDistinct (p ∷ ps) = (lookup_profile p.id ps ≡ none) × AreDistinct ps

lookup_profile-upsert :
    (id : Str) (q : ConnectionProfileConfig) (ps : List ConnectionProfileConfig)
    → lookup_profile id (upsert q ps) ≡ (if str_eq q.id id then some q else lookup_profile id ps)
unfolding upsert
lookup_profile-upsert id q [] = refl
lookup_profile-upsert id q (p ∷ ps) = ground (
  arith,
  str_eq_iff p.id q.id,
  str_eq_iff q.id id,
  str_eq_iff p.id id,
  lookup_profile-upsert id q ps,
)

AreDistinct-upsert :
    (q : ConnectionProfileConfig) (ps : List ConnectionProfileConfig)
    → AreDistinct ps
    → AreDistinct (upsert q ps)
unfolding upsert
AreDistinct-upsert q [] d = (refl, tt)
AreDistinct-upsert q (p ∷ ps) (d, ds) = elim (Bool-cases (str_eq p.id q.id)) [
  | inl same ↦ rw same (rw ((str_eq_iff p.id q.id).0 same) at d, ds)
  | inr differ ↦ rw differ (
    ground (arith, lookup_profile-upsert p.id q ps, str_eq_iff p.id q.id, str_eq_iff q.id p.id),
    AreDistinct-upsert q ps ds,
  )
]

-- Where no two of the saved profiles share an id: a profile that is saved is found under its id, the others are found
-- as before, and no two share an id afterwards.
pub upsert_profile_lem :
    (q : ConnectionProfileConfig) (c : Config) (id : Str)
    → AreDistinct c.profiles
    → (lookup_profile id (upsert_profile q c).profiles
        ≡ (if str_eq q.id id then some q else lookup_profile id c.profiles))
      × AreDistinct (upsert_profile q c).profiles
unfolding upsert_profile
upsert_profile_lem q c id d =
    (lookup_profile-upsert id q c.profiles, AreDistinct-upsert q c.profiles d)
