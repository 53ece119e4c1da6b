-- ===== src/Certs/Names.antt =====
-- internal/cert/manager.go: the normal form of a list of names.
use Prim.Native.String.{compare}
use text.Mathlib.Text.{is_lt}
use tailscale_derp.Base.{
  String, str_eq, trim_space, to_lower, Bool, true, false, Option, none, some, List, [], ◌∷◌, ◌&&◌,
  ◌||◌, ◌+++◌, if◌then◌else◌, any,
}

-- strings.TrimSuffix(value, ".").
unfoldable pub trim_dot : String → String
trim_dot String.[] = String.[]
trim_dot (String.◌∷◌ c s) =
    let rest = trim_dot s in if str_eq (String.◌∷◌ c s) "." then "" else String.◌∷◌ c rest

abbrev pub known_or_lower : String → Option String → String
known_or_lower s none = to_lower s
known_or_lower s (some a) = a

-- A name without its last dot and spaces: the text of its address, or in lower case.
unfoldable pub normal_name : (String → Option String) → String → String
unfolding trim_dot trim_space to_lower
normal_name parse value =
    let v = trim_space (trim_dot value) in if str_eq v "" then "" else known_or_lower v (parse v)

abbrev pub listed : String → List String → Bool
listed s ss = any ss (λ t. str_eq t s)

-- The loop of normalizeNames.
unfoldable pub collect_names : (String → Option String) → List String → List String → List String
unfolding normal_name
collect_names parse seen [] = []
collect_names parse seen (v ∷ vs) =
    let n = normal_name parse v in
    let skip = str_eq n "" || listed n seen in
    let rest = collect_names parse (if skip then seen else n ∷ seen) vs in
    if skip then rest else n ∷ rest

unfoldable pub insert_name : String → List String → List String
insert_name n [] = n ∷ []
insert_name n (m ∷ ms) =
    let rest = insert_name n ms in if is_lt (compare m n) then m ∷ rest else n ∷ m ∷ ms

-- sort.Strings.
unfoldable pub sort_names : List String → List String
unfolding insert_name
sort_names [] = []
sort_names (n ∷ ns) = insert_name n (sort_names ns)

unfoldable pub normalize_names : (String → Option String) → List String → List String
unfolding collect_names sort_names
normalize_names parse values = sort_names (collect_names parse [] values)

abbrev pub joined : List String → String
joined [] = ""
joined (n ∷ []) = n
joined (n ∷ m ∷ ms) = n +++ "\0" +++ joined (m ∷ ms)

-- sameNames: the normal forms, joined, are one text.
unfoldable pub same_names : (String → Option String) → List String → List String → Bool
unfolding normalize_names
same_names parse actual names =
    str_eq (joined (normalize_names parse actual)) (joined (normalize_names parse names))

unfoldable pub all_listed : List String → List String → Bool
all_listed actual [] = true
all_listed actual (n ∷ ns) = listed n actual && all_listed actual ns

unfoldable pub contains_names : (String → Option String) → List String → List String → Bool
unfolding all_listed normalize_names
contains_names parse actual names =
    all_listed (normalize_names parse actual) (normalize_names parse names)

unfoldable pub same_string_slice : List String → List String → Bool
same_string_slice [] [] = true
same_string_slice [] (b ∷ bs) = false
same_string_slice (a ∷ as') [] = false
same_string_slice (a ∷ as') (b ∷ bs) = str_eq a b && same_string_slice as' bs
