-- ===== src/Acl/Evaluator.antt =====
-- internal/acl/evaluator.go and pkg/mumble/permission.go: what a subject may do in a channel. The
-- cache of results is left out: every call computes.
pub mod Bounds
pub mod LastWord
pub mod Stale
use mathlib.Core.List.{reverse}
use go_mumble_server.Base.{
  ℕ, Bool, true, false, Option, none, some, List, [], ◌∷◌, ◌==◌, if◌then◌else◌, ◌&&◌, ◌||◌, not,
  bit_and, bit_or,
}
use go_mumble_server.Base.Bits.{and_not}
use go_mumble_server.Base.Maps.{find}
use go_mumble_server.Channel.{Tree, ancestor_chain, contains, root_id}
use go_mumble_server.Acl.Selector.{User, Outside, Row}
use go_mumble_server.Acl.Group.{is_api_user, last_is_root, entry_matches}

-- Bits of `Permission`, and the sets that the evaluator makes of them.
abbrev pub write_bit : ℕ
write_bit = 0x1

abbrev pub traverse_bit : ℕ
traverse_bit = 0x2

abbrev pub enter_bit : ℕ
enter_bit = 0x4

abbrev pub speak_and_whisper : ℕ
speak_and_whisper = 0x108

abbrev pub default_permissions : ℕ
default_permissions = 0xB0E

abbrev pub root_permissions : ℕ
root_permissions = 0x1F0000

abbrev pub write_permissions : ℕ
write_permissions = 0xEF6

abbrev pub all_permissions : ℕ
all_permissions = 0x1F0FFF

-- `PermissionAll &^ rootPermissions`
abbrev pub ordinary_permissions : ℕ
ordinary_permissions = 0xFFF

pub record Subject : Type 0 where
  pub session_id : ℕ
  pub user_id : ℕ
  pub generation : ℕ

-- The variables `granted`, `traverse` and `write` of `evaluate`.
pub record Progress : Type 0 where
  pub granted : ℕ
  pub traverse : Bool
  pub write : Bool

-- How the walk down the channels ends: an error, the early return of no permission, or its result.
pub data Walk : Type 0 where
  failed : Walk
  blocked : Walk
  reached : Progress → Walk

abbrev pub has : ℕ → ℕ → Bool
has mask permission = not (bit_and mask permission == 0)

-- A flag after an entry that may set and then reset it.
abbrev pub flag : Row → ℕ → Bool → Bool
flag row permission old =
    if has row.deny permission then false else (if has row.grant permission then true else old)

-- Whether an entry of channel `cid` is one for the target itself, or one that the target inherits.
abbrev pub is_own : Row → ℕ → ℕ → Bool
is_own row cid target = cid == target && row.apply_here

abbrev pub is_inherited : Row → ℕ → ℕ → Bool
is_inherited row cid target = not (cid == target) && row.apply_subs

-- The root's own entries may grant what only the root has.
unfoldable pub grant_root : Row → ℕ → ℕ → ℕ → ℕ
grant_root row cid target granted =
    if cid == root_id && is_own row cid target
    then bit_or granted (bit_and row.grant root_permissions)
    else granted

unfoldable pub grant_row : Row → ℕ → ℕ → ℕ → ℕ
grant_row row cid target granted =
    if is_own row cid target || is_inherited row cid target
    then and_not (bit_or granted (bit_and row.grant ordinary_permissions)) row.deny
    else granted

-- One entry that matches.
unfoldable pub apply_row : Row → ℕ → ℕ → Progress → Progress
unfolding grant_root grant_row
apply_row row cid target s = record {
  granted = grant_row row cid target (grant_root row cid target s.granted);
  traverse =
      if is_inherited row cid target || row.apply_here
      then flag row traverse_bit s.traverse
      else s.traverse;
  write =
      if is_own row cid target || is_inherited row cid target
      then flag row write_bit s.write
      else s.write;
}

-- The loop over the entries of one channel.
unfoldable pub eval_rows :
    Outside → Tree → ℕ → ℕ → Option User → ℕ → List Row → Progress → Option Progress
unfolding apply_row
eval_rows w t id target u cid [] s = some s
eval_rows w t id target u cid (row ∷ rows) s = elim (entry_matches w t row id target u) [
  | none ↦ none
  | some m ↦ eval_rows w t id target u cid rows (if m then apply_row row cid target s else s)
]

-- A channel that does not inherit starts from the default again.
abbrev pub start_channel : Bool → ℕ → Progress → Progress
start_channel inherit def s = if inherit then s else record s { granted = def }

-- The loop over the channels, the root first.
unfoldable pub eval_path : Outside → Tree → ℕ → ℕ → Option User → ℕ → List ℕ → Progress → Walk
unfolding eval_rows
eval_path w t id target u def [] s = reached s
eval_path w t id target u def (cid ∷ path) s = elim (find cid t) [
  | none ↦ failed
  | some n ↦ elim (w.rows cid) [
    | none ↦ failed
    | some rows ↦ elim (eval_rows w t id target u cid rows (start_channel n.inherit_acl def s)) [
      | none ↦ failed
      | some now ↦
          let rest = eval_path w t id target u def path now in
          if not now.traverse && not now.write then blocked else rest
    ]
  ]
]

-- The end of `evaluate`: who may write may do most things.
unfoldable pub conclude : ℕ → ℕ → ℕ
conclude target granted =
    let written =
      if has granted write_bit
      then (if target == root_id
          then bit_or (bit_or granted write_permissions) root_permissions
          else bit_or granted write_permissions)
      else granted in
    bit_and written all_permissions

abbrev pub finish : ℕ → Walk → Option ℕ
finish target failed = none
finish target blocked = some 0
finish target (reached s) = some (conclude target s.granted)

-- What a subject has without any entry; an API administrator may also write.
unfoldable pub initial_permissions : Outside → ℕ → Option ℕ
initial_permissions w id =
    if is_api_user id
    then elim (w.api_admin id) [
      | none ↦ none
      | some admin ↦
          some (if admin then bit_or default_permissions write_bit else default_permissions)
    ]
    else some default_permissions

unfoldable pub evaluate : Outside → Tree → ℕ → ℕ → Option User → Option ℕ
unfolding eval_path conclude initial_permissions
evaluate w t id target u =
    let chain = ancestor_chain t target in
    if last_is_root chain
    then elim (initial_permissions w id) [
      | none ↦ none
      | some def ↦ finish target (
          eval_path w t id target u def (reverse chain)
            (record { granted = def; traverse = true; write = has def write_bit }))
    ]
    else none

-- `none` is an error; without a session the subject is an account alone.
unfoldable pub resolve_user : List (ℕ × User) → Subject → Option (Option User)
resolve_user users s = if s.session_id == 0 then some none else elim (find s.session_id users) [
  | none ↦ none
  | some u ↦
      if u.user_id == s.user_id && (s.generation == 0 || s.generation == u.generation)
      then some (some u)
      else none
]

abbrev pub is_super : Option User → Bool
is_super none = false
is_super (some u) = u.is_super_user

unfoldable pub permissions : Outside → Tree → List (ℕ × User) → Subject → ℕ → ℕ
unfolding evaluate resolve_user
permissions w t users s cid = elim (resolve_user users s) [
  | none ↦ 0
  | some u ↦
      if is_super u
      then and_not all_permissions speak_and_whisper
      else elim (evaluate w t s.user_id cid u) [ none ↦ 0 | some p ↦ p ]
]

unfoldable pub check : Outside → Tree → List (ℕ × User) → Subject → ℕ → ℕ → Bool
unfolding permissions
check w t users s cid permission = bit_and (permissions w t users s cid) permission == permission

-- The channels that have an entry denying `Enter`, as a set of ids.
unfoldable pub enter_restricted_channels : List Row → List ℕ
enter_restricted_channels [] = []
enter_restricted_channels (row ∷ rows) =
    let rest = enter_restricted_channels rows in
    if has row.deny enter_bit then row.channel_id ∷ rest else rest
