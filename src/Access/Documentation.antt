-- ===== src/Access/Documentation.antt =====
-- Which paths backend/src/modules/auth/guards/auth-route-access.ts exempts from the guards.
use logistics_center.Base.{
  ℕ, ◌≡◌, refl, inl, inr, Bool, true, false, ◌||◌, List, [], ◌∷◌, ◌++◌, filter, ◌==◌, arith, All,
  contains, Bool-cases,
}
use logistics_center.Base.Text.{Text, codes, text_eq, starts_with}
use logistics_center.Access.Paths.{
  path_of_segments, split_slash, cons_head, is_route_segment, join_path, route_segments,
  should_bypass_access_guards, before_query, or_default,
}

abbrev NoSlash : Text → Type 0
NoSlash s = contains b'/' s ≡ false

-- A rest of a path: empty, or a slash and more.
abbrev starts_segment : Text → Bool
starts_segment [] = true
starts_segment (c ∷ s) = c == b'/'

cons_head-NoSlash :
    (c : ℕ) (segs : List Text)
    → (c == b'/') ≡ false
    → All NoSlash segs
    → All NoSlash (cons_head c segs)
cons_head-NoSlash c [] e h = ground arith
cons_head-NoSlash c (seg ∷ segs) e h = ground arith

split_slash-NoSlash : (s : Text) → All NoSlash (split_slash s)
unfolding split_slash
split_slash-NoSlash [] = (refl, tt)
split_slash-NoSlash (c ∷ s) = elim (Bool-cases (c == b'/')) [
  | inl e ↦ rw e (refl, split_slash-NoSlash s)
  | inr e ↦ rw e (cons_head-NoSlash c (split_slash s) e (split_slash-NoSlash s))
]

filter-All : (p : Text → Bool) (segs : List Text) → All NoSlash segs → All NoSlash (filter p segs)
filter-All p [] h = tt
filter-All p (seg ∷ segs) h = elim (Bool-cases (p seg)) [
  | inl e ↦ rw e (h.0, filter-All p segs h.1)
  | inr e ↦ rw e (filter-All p segs h.1)
]

-- A path is a word, or a word and a slash and more, exactly if its first segment is the word.
first_segment_eq :
    (seg w rest : Text)
    → NoSlash seg
    → NoSlash w
    → starts_segment rest ≡ true
    → (text_eq (seg ++ rest) w || starts_with (seg ++ rest) (w ++ b'/' ∷ [])) ≡ text_eq seg w
first_segment_eq [] [] [] a b h = refl
first_segment_eq [] [] (c ∷ rest) a b h = ground arith
first_segment_eq [] (d ∷ w) [] a b h = refl
first_segment_eq [] (d ∷ w) (c ∷ rest) a b h = ground arith
first_segment_eq (x ∷ seg) [] rest a b h = ground arith
first_segment_eq (x ∷ seg) (d ∷ w) rest a b h = ground (arith, first_segment_eq seg w rest)

abbrev pub begins_with_docs : List Text → Bool
begins_with_docs [] = false
begins_with_docs (seg ∷ segs) = text_eq seg (codes "docs")

join_path-starts : (segs : List Text) → starts_segment (join_path segs) ≡ true
unfolding join_path
join_path-starts [] = refl
join_path-starts (seg ∷ segs) = refl

bypass_of_segments :
    (segs : List Text)
    → All NoSlash segs
    → let p = path_of_segments segs in
      (text_eq p (codes "/docs") || starts_with p (codes "/docs/")) ≡ begins_with_docs segs
unfolding path_of_segments
bypass_of_segments [] h = refl
bypass_of_segments (seg ∷ segs) h =
    (first_segment_eq seg (codes "docs") (join_path segs) h.0 refl (join_path-starts segs))

-- The guards are bypassed exactly for the paths whose first segment is `docs`, once the query is cut
-- off and the empty segments, the segments `api` and the version numbers are dropped.
pub should_bypass-eq-begins_with_docs :
    (path url : Text)
    → should_bypass_access_guards path url ≡ begins_with_docs (route_segments path url)
unfolding should_bypass_access_guards
should_bypass-eq-begins_with_docs path url =
    let raw = or_default (or_default path url) (codes "/") in
    let bare = or_default (before_query raw) (codes "/") in
    bypass_of_segments (route_segments path url)
      (filter-All is_route_segment (split_slash bare) (split_slash-NoSlash bare))
