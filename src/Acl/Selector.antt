-- ===== src/Acl/Selector.antt =====
-- internal/acl/group.go: what an ACL entry's group name selects. A string is the list of its bytes.
-- strings.EqualFold and strconv.ParseInt (with strings.TrimSpace) are parameters, as is the database.
use go_mumble_server.Base.{
  ℕ, ◌+◌, ◌-◌, Bool, true, false, Option, none, some, List, [], ◌∷◌, length, get_or, ◌==◌,
  if◌then◌else◌, ◌&&◌, ◌||◌, leb,
}
use go_mumble_server.Base.Int.{ℤ, pos, ◌+ℤ◌, leb_ℤ, clip}
use go_mumble_server.Channel.{contains}

abbrev pub Text : Type 0
Text = List ℕ

abbrev pub same_text : Text → Text → Bool
same_text [] [] = true
same_text [] (y ∷ b) = false
same_text (x ∷ a) [] = false
same_text (x ∷ a) (y ∷ b) = x == y && same_text a b

unfoldable pub has_text : List Text → Text → Bool
has_text [] s = false
has_text (x ∷ xs) s = same_text x s || has_text xs s

pub record Selector : Type 0 where
  pub name : Text
  pub invert : Bool
  pub here : Bool
  pub token : Bool
  pub cert : Bool

abbrev pub plain : Text → Selector
plain name = record { name = name; invert = false; here = false; token = false; cert = false }

-- `!`, `~`, `#` and `$`
abbrev pub is_mark : ℕ → Bool
is_mark c = c == b'!' || c == b'~' || c == b'#' || c == b'$'

abbrev pub mark : Selector → ℕ → Selector
mark s c =
    if c == b'!'
    then record s { invert = true }
    else (if c == b'~'
        then record s { here = true }
        else (if c == b'#' then record s { token = true } else record s { cert = true }))

-- The loop of `parseSelector`: the marks in any order, then the name.
unfoldable pub parse_from : Selector → Text → Selector
parse_from s [] = s
parse_from s (c ∷ name) =
    let rest = parse_from (mark s c) name in
    if is_mark c then rest else record s { name = c ∷ name }

unfoldable pub parse_selector : Text → Selector
unfolding parse_from
parse_selector name = parse_from (plain []) name

-- What the evaluator reads of a connected user.
pub record User : Type 0 where
  pub session_id : ℕ
  pub generation : ℕ
  pub revision : ℕ
  pub user_id : ℕ
  pub channel_id : ℕ
  pub access_tokens : List Text
  pub external_groups : List Text
  pub external_identity : Bool
  pub certificate_verified : Bool
  pub cert_hash : Text
  pub is_super_user : Bool

-- `ChannelGroup`
pub record Group : Type 0 where
  pub channel_id : ℕ
  pub inherit : Bool
  pub inheritable : Bool
  pub add : List ℕ
  pub remove : List ℕ

-- `ChannelACL`. `user` is `none` where the entry names a group; `some none` is the id -1.
pub record Row : Type 0 where
  pub channel_id : ℕ
  pub apply_here : Bool
  pub apply_subs : Bool
  pub user : Option (Option ℕ)
  pub group_name : Text
  pub access_token : Text
  pub eval_here : Bool
  pub invert : Bool
  pub grant : ℕ
  pub deny : ℕ

-- What the evaluator asks of the outside: `none` is an error of the database.
pub record Outside : Type 0 where
  pub equal_fold : Text → Text → Bool
  pub parse_int32 : Text → Option ℤ
  pub api_admin : ℕ → Option Bool
  pub rows : ℕ → Option (List Row)
  pub groups : ℕ → Text → Option (List Group)
  pub temporary : ℕ → Text → Bool
  pub temporary_users : ℕ → Text → ℕ → Bool
  pub temporary_sessions : ℕ → Text → ℕ → ℕ → Bool

-- `userHasToken`, and its loop.
unfoldable pub any_token : Outside → Text → List Text → Bool
any_token w token [] = false
any_token w token (t ∷ ts) = w.equal_fold t token || any_token w token ts

unfoldable pub has_token : Outside → Option User → Text → Bool
unfolding any_token
has_token w none token = false
has_token w (some u) [] = false
has_token w (some u) (c ∷ token) = any_token w (c ∷ token) u.access_tokens

-- `selectorInt`
abbrev pub selector_int : Outside → Text → ℤ
selector_int w value = elim (w.parse_int32 value) [ none ↦ pos 0 | some n ↦ n ]

-- strings.Split by a comma.
unfoldable pub split_front : ℕ → List Text → List Text
split_front c [] = (c ∷ []) ∷ []
split_front c (f ∷ fs) = if c == b',' then ([] ∷ f ∷ fs) else ((c ∷ f) ∷ fs)

unfoldable pub split_comma : Text → List Text
unfolding split_front
split_comma [] = [] ∷ []
split_comma (c ∷ s) = split_front c (split_comma s)

-- slices.Index
unfoldable pub index_of : List ℕ → ℕ → Option ℕ
index_of [] k = none
index_of (x ∷ xs) k =
    let rest = index_of xs k in
    if x == k then some 0 else elim rest [ none ↦ none | some i ↦ some (i + 1) ]

-- An argument that is missing or empty keeps its default.
abbrev pub argument : Outside → List Text → ℕ → ℤ → ℤ
argument w args i default = elim (get_or args i []) [
  | [] ↦ default
  | c ∷ s ↦ selector_int w (c ∷ s)
]

-- `matchSub` behind its tests: `path` runs from the root to the target, `home` from the user's
-- channel to the root.
unfoldable pub in_subtree : List ℕ → List ℕ → Option ℕ → ℤ → ℤ → ℤ → Bool
in_subtree path home none base low high = false
in_subtree path home (some index) base low high =
    let required = clip (pos index +ℤ base) in
    if leb (length path) required
    then false
    else (if contains home (get_or path required 0)
        then leb_ℤ (pos required +ℤ low) (pos (length home - 1))
          && leb_ℤ (pos (length home - 1)) (pos required +ℤ high)
        else false)
