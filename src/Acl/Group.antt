-- ===== src/Acl/Group.antt =====
-- internal/acl/group.go: the groups of the database and the match of one ACL entry. `none` is an
-- error, which the evaluator answers by granting nothing.
use mathlib.Core.List.{reverse}
use go_mumble_server.Base.{
  ℕ, Bool, true, false, Option, none, some, List, [], ◌∷◌, ◌==◌, if◌then◌else◌, ◌&&◌, ◌||◌, not,
  drop, ltb, take,
}
use go_mumble_server.Base.Int.{pos}
use go_mumble_server.Channel.{Tree, ancestor_chain, contains, root_id, has_channel}
use go_mumble_server.Acl.Selector.{
  Text, User, Outside, Group, Row, Selector, plain, same_text, has_text, parse_selector, has_token,
  index_of, in_subtree, argument, split_comma,
}

-- `id >= APIUserIDBase`
abbrev pub is_api_user : ℕ → Bool
is_api_user id = not (ltb id 0x8000_0000)

unfoldable pub last_is_root : List ℕ → Bool
last_is_root [] = false
last_is_root (x ∷ []) = x == root_id
last_is_root (x ∷ y ∷ r) = last_is_root (y ∷ r)

-- `temporaryMatch`
unfoldable pub temporary_match : Outside → ℕ → Text → ℕ → Option User → Bool
temporary_match w cid name id none = not (id == 0) && w.temporary_users cid name id
temporary_match w cid name id (some u) =
    (not (id == 0) && w.temporary_users cid name id)
    || (not (u.generation == 0) && w.temporary_sessions cid name u.session_id u.generation)

-- The group of a channel: the stored one, or an empty one for temporary members only.
unfoldable pub group_at : Outside → Text → ℕ → List Group → Option Group
group_at w name cid (g ∷ gs) = some g
group_at w name cid [] =
    if w.temporary cid name
    then some
        (record { channel_id = cid; inherit = true; inheritable = true; add = []; remove = [] })
    else none

-- One channel of the chain; `rest` are the groups above it.
collect_at : ℕ → ℕ → Option Group → Option (List Group) → Option (List Group)
collect_at context cid none rest = rest
collect_at context cid (some g) rest =
    if not (cid == context) && not g.inheritable
    then some []
    else (if g.inherit
        then elim rest [ none ↦ none | some stack ↦ some (g ∷ stack) ]
        else some (g ∷ []))

-- The loop over the chain: the stack of groups, the context's first.
unfoldable pub collect : Outside → Text → ℕ → List ℕ → Option (List Group)
unfolding collect_at group_at
collect w name context [] = some []
collect w name context (cid ∷ chain) =
    let rest = collect w name context chain in
    elim (w.groups cid name) [
      | none ↦ none
      | some rows ↦ collect_at context cid (group_at w name cid rows) rest
    ]

-- The loop over the stack, from the root down.
unfoldable pub member : Outside → Text → ℕ → Option User → List Group → Bool
unfolding temporary_match
member w name id u [] = false
member w name id u (g ∷ stack) =
    if not (id == 0) && contains g.remove id
    then false
    else ((not (id == 0) && contains g.add id)
        || temporary_match w g.channel_id name id u
        || member w name id u stack)

unfoldable pub stored_group : Outside → Tree → ℕ → Text → ℕ → Option User → Option Bool
unfolding collect member last_is_root
stored_group w t id name context u =
    let chain = ancestor_chain t context in
    if last_is_root chain
    then elim (collect w name context chain) [
      | none ↦ none
      | some stack ↦ some (member w name id u stack)
    ]
    else none

abbrev pub sub_prefix : Text
sub_prefix = b's' ∷ b'u' ∷ b'b' ∷ b',' ∷ []

-- `matchSub`
unfoldable pub match_sub : Outside → Tree → Text → ℕ → ℕ → Option User → Bool
match_sub w t name target context none = false
match_sub w t name target context (some u) =
    let args = if same_text name (take 3 sub_prefix) then [] else split_comma (drop 4 name) in
    let path = reverse (ancestor_chain t target) in
    in_subtree path (ancestor_chain t u.channel_id) (index_of path context)
      (argument w args 0 (pos 0)) (argument w args 1 (pos 1)) (argument w args 2 (pos 1000))

abbrev user_in : Option User → ℕ → Bool
user_in none context = false
user_in (some u) context = u.channel_id == context

abbrev user_has_cert : Option User → Text → Bool
user_has_cert none name = false
user_has_cert (some u) name = same_text u.cert_hash name

abbrev user_is_strong : Option User → Bool
user_is_strong none = false
user_is_strong (some u) = u.certificate_verified

abbrev in_external : Option User → Text → Bool
in_external none name = false
in_external (some u) name = u.external_identity && has_text u.external_groups name

-- A group by name: one of the outside identity, the API administrators, or a stored group.
named_group : Outside → Tree → ℕ → Text → ℕ → Option User → Option Bool
named_group w t id name context u =
    if in_external u name
    then some true
    else (if same_text name (b'a' ∷ b'd' ∷ b'm' ∷ b'i' ∷ b'n' ∷ []) && is_api_user id
        then w.api_admin id
        else stored_group w t id name context u)

-- The `switch` of `matchSelector` over the names.
select_name : Outside → Tree → ℕ → ℕ → Text → ℕ → Option User → Option Bool
unfolding named_group match_sub
select_name w t id target name context u =
    let is = same_text name in
    if is (b'n' ∷ b'o' ∷ b'n' ∷ b'e' ∷ [])
    then some false
    else (if is (b'a' ∷ b'l' ∷ b'l' ∷ [])
        then some true
        else (if is (b'a' ∷ b'u' ∷ b't' ∷ b'h' ∷ [])
            then some (not (id == 0))
            else (if is (b's' ∷ b't' ∷ b'r' ∷ b'o' ∷ b'n' ∷ b'g' ∷ [])
                then some (user_is_strong u)
                else (if is (b'i' ∷ b'n' ∷ [])
                    then some (user_in u context)
                    else (if is (b'o' ∷ b'u' ∷ b't' ∷ [])
                        then some (not (user_in u context))
                        else (if is (take 3 sub_prefix) || same_text (take 4 name) sub_prefix
                            then some (match_sub w t name target context u)
                            else named_group w t id name context u))))))

unfoldable pub match_selector : Outside → Tree → Selector → ℕ → ℕ → ℕ → Option User → Option Bool
unfolding select_name
match_selector w t s id target definition u = elim s.name [
  | [] ↦ some false
  | c ∷ name ↦
      let context = if s.here then definition else target in
      let found =
        if s.token
        then some (has_token w u s.name)
        else (if s.cert
            then some (user_has_cert u s.name)
            else select_name w t id target s.name context u) in
      elim found [ none ↦ none | some m ↦ some (if s.invert then not m else m) ]
]

-- What an entry for a group selects by: its access token, if it has one, or its group name.
abbrev pub row_selector : Row → Selector
row_selector row =
    let s : Selector = elim row.access_token [
      | [] ↦ parse_selector row.group_name
      | c ∷ token ↦ record (plain (c ∷ token)) { token = true }
    ] in
    record s { here = s.here || row.eval_here; invert = s.invert || row.invert }

-- The id -1 of an entry for a user matches nobody, and neither does the anonymous id 0.
abbrev pub user_matches : Option ℕ → ℕ → Bool
user_matches none id = false
user_matches (some n) id = not (id == 0) && n == id

unfoldable pub entry_matches : Outside → Tree → Row → ℕ → ℕ → Option User → Option Bool
unfolding match_selector parse_selector
entry_matches w t row id target u = elim row.user [
  | some n ↦ some (if row.invert then not (user_matches n id) else user_matches n id)
  | none ↦ match_selector w t (row_selector row) id target row.channel_id u
]

unfoldable pub in_group : Outside → Tree → User → ℕ → Text → Bool
unfolding match_selector parse_selector
in_group w t u cid group =
    if has_channel t cid
    then elim (match_selector w t (parse_selector group) u.user_id cid cid (some u)) [
      | none ↦ false
      | some m ↦ m
    ]
    else false
