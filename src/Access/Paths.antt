-- ===== src/Access/Paths.antt =====
-- backend/src/modules/auth/guards/auth-route-access.ts
use logistics_center.Base.{
  ℕ, Bool, false, not, ◌&&◌, ◌||◌, List, [], ◌∷◌, ◌++◌, filter, if◌then◌else◌, ◌==◌, leb, all,
}
use logistics_center.Base.Text.{Text, codes, text_eq, is_empty, starts_with, to_lower_case}

-- `text.split('?')[0]`
unfoldable pub before_query : Text → Text
before_query [] = []
before_query (c ∷ s) = let rest = before_query s in if c == b'?' then [] else c ∷ rest

abbrev pub cons_head : ℕ → List Text → List Text
cons_head c [] = (c ∷ []) ∷ []
cons_head c (seg ∷ segs) = (c ∷ seg) ∷ segs

-- `text.split('/')`
unfoldable pub split_slash : Text → List Text
split_slash [] = [] ∷ []
split_slash (c ∷ s) = let rest = split_slash s in if c == b'/' then [] ∷ rest else cons_head c rest

abbrev pub is_digit : ℕ → Bool
is_digit c = leb b'0' c && leb c b'9'

-- `/^v\d+$/i`
unfoldable pub is_version_segment : Text → Bool
is_version_segment [] = false
is_version_segment (c ∷ s) = (c == b'v' || c == b'V') && (not (is_empty s) && all is_digit s)

-- The three filters: empty segments, `api` and versions are dropped.
unfoldable pub is_route_segment : Text → Bool
unfolding is_version_segment
is_route_segment seg =
    not (is_empty seg)
    && (not (text_eq (to_lower_case seg) (codes "api")) && not (is_version_segment seg))

-- `/${segments.join('/')}`
unfoldable pub join_path : List Text → Text
join_path [] = []
join_path (seg ∷ segs) = b'/' ∷ (seg ++ join_path segs)

abbrev pub or_default : Text → Text → Text
or_default [] d = d
or_default (c ∷ s) d = c ∷ s

unfoldable pub route_segments : Text → Text → List Text
unfolding before_query split_slash is_route_segment
route_segments path url =
    let raw_path = or_default (or_default path url) (codes "/") in
    filter is_route_segment (split_slash (or_default (before_query raw_path) (codes "/")))

-- `segments.length ? … : '/'`
unfoldable pub path_of_segments : List Text → Text
unfolding join_path
path_of_segments [] = codes "/"
path_of_segments (seg ∷ segs) = join_path (seg ∷ segs)

-- `request.path` and `request.url`
unfoldable pub normalize_guard_path : Text → Text → Text
unfolding route_segments path_of_segments
normalize_guard_path path url = path_of_segments (route_segments path url)

unfoldable pub should_bypass_access_guards : Text → Text → Bool
unfolding normalize_guard_path
should_bypass_access_guards path url =
    let normalized_path = normalize_guard_path path url in
    text_eq normalized_path (codes "/docs") || starts_with normalized_path (codes "/docs/")
