-- ===== src/Master/SyncMappings/Lists.antt =====
-- The lists that a mapping holds as text.
use craft_stack.Prelude.{
  ◌≡◌, ◌≢◌, refl, sym, ap, ◌∙◌, List, [], ◌∷◌, Text, codes, false, same, same_iff, All, arith,
}
use craft_stack.GoText.{split}
use craft_stack.GoText.Laws.{Lacks, IsSolid, join, split-join, trim_space-IsSolid}
use craft_stack.Master.SyncMappings.{SyncMapping, parts_of, target_list, or_everyone, exclude_list}

-- A name that stands in a list: not empty, without a comma and without white space.
pub record IsName (s : Text) : Type 0 where
  pub nonempty : s ≢ []
  pub no_comma : Lacks b',' s
  pub solid : IsSolid s

parts_of-names : (ps : List Text) → All IsName ps → parts_of ps ≡ ps
unfolding parts_of
parts_of-names [] h = refl
parts_of-names (p ∷ ps) (n, h) =
    rw (trim_space-IsSolid p n.solid, kept) (ap (◌∷◌ p) (parts_of-names ps h))
  where
    kept : same p [] ≡ false
    kept = ground (arith, same_iff p [], n.nonempty)

names-Lacks : (ps : List Text) → All IsName ps → All (Lacks b',') ps
names-Lacks [] h = tt
names-Lacks (p ∷ ps) (n, h) = (n.no_comma, names-Lacks ps h)

join-nonempty : (p : Text) (ps : List Text) → p ≢ [] → join (p ∷ ps) b',' ≢ []
join-nonempty [] ps n = absurd (n refl)
join-nonempty (c ∷ p) [] n = λ e. cc
join-nonempty (c ∷ p) (q ∷ ps) n = λ e. cc

parts-join :
    (p : Text) (ps : List Text)
    → All IsName (p ∷ ps)
    → parts_of (split (join (p ∷ ps) b',') b',') ≡ p ∷ ps
parts-join p ps h =
    ap parts_of (split-join b',' p ps (names-Lacks (p ∷ ps) h)) ∙ parts_of-names (p ∷ ps) h

star_alone :
    (p : Text) (ps : List Text)
    → All IsName (p ∷ ps)
    → join (p ∷ ps) b',' ≡ codes "*"
    → p ∷ ps ≡ codes "*" ∷ []
star_alone p ps h e =
    sym (split-join b',' p ps (names-Lacks (p ∷ ps) h))
    ∙ ap (λ s. split s b',') e
    ∙ unfold split in refl

-- TargetList and ExcludeList read back any list of one name or more, each not empty, without a comma and without
-- white space, that was written with commas between.
pub target_list-join :
    (m : SyncMapping) (p : Text) (ps : List Text)
    → All IsName (p ∷ ps)
    → (target_list (record m { targets = join (p ∷ ps) b',' }) ≡ p ∷ ps)
      × (exclude_list (record m { exclude = join (p ∷ ps) b',' }) ≡ p ∷ ps)
unfolding target_list exclude_list or_everyone
target_list-join m p ps h = (
  ground (
    arith,
    not_empty,
    parts-join p ps h,
    star_alone p ps h,
    same_iff (join (p ∷ ps) b',') (codes "*"),
  ),
  ground (arith, not_empty, parts-join p ps h),
)
  where
    not_empty : same (join (p ∷ ps) b',') [] ≡ false
    not_empty = ground (arith, same_iff (join (p ∷ ps) b',') [], join-nonempty p ps (h.0.nonempty))
