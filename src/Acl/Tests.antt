-- ===== src/Acl/Tests.antt =====
-- A channel below the root whose entries deny everybody `Speak` and then grant it again, with `Kick`.
use go_mumble_server.Base.{
  arith, ℕ, ◌≡◌, refl, List, [], ◌∷◌, some, none, true, false, if◌then◌else◌, ◌==◌,
}
use go_mumble_server.Base.Bits.{bit, and_not}
use go_mumble_server.Base.Int.{pos}
use go_mumble_server.Base.Maps.{find}
use go_mumble_server.Channel.{Node, Tree, ancestor_chain}
use go_mumble_server.Acl.Selector.{User, Outside, Row, same_text}
use go_mumble_server.Acl.Group.{entry_matches, last_is_root}
use go_mumble_server.Acl.Evaluator.{evaluate, eval_rows, Progress}
use go_mumble_server.Acl.Evaluator.Bounds.{Within, allowed, evaluate-Within}
use go_mumble_server.Acl.Evaluator.{check, enter_bit}
use go_mumble_server.Acl.Evaluator.Stale.{check-stale}
use go_mumble_server.Acl.Evaluator.LastWord.{eval_rows_lem, last_word, counts, or_else}

abbrev node : ℕ → List ℕ → Node
node id children = record {
  id = id;
  parent_id = 0;
  name = [];
  description = [];
  position = pos 0;
  max_users = 0;
  is_temporary = false;
  links = [];
  inherit_acl = true;
  children = children;
}

abbrev lobby : Tree
lobby = (0, node 0 (1 ∷ [])) ∷ (1, node 1 []) ∷ []

-- An entry of channel 1 for `all`.
abbrev entry : ℕ → ℕ → Row
entry grant deny = record {
  channel_id = 1;
  apply_here = true;
  apply_subs = true;
  user = none;
  group_name = b'a' ∷ b'l' ∷ b'l' ∷ [];
  access_token = [];
  eval_here = false;
  invert = false;
  grant = grant;
  deny = deny;
}

abbrev entries : List Row
entries = entry 0 0x8 ∷ entry 0x10008 0 ∷ []

abbrev database : Outside
database = record {
  equal_fold = same_text;
  parse_int32 = λ s. some (pos 1);
  api_admin = λ id. some false;
  rows = λ cid. if cid == 1 then some entries else some [];
  groups = λ cid name. some [];
  temporary = λ cid name. false;
  temporary_users = λ cid name id. false;
  temporary_sessions = λ cid name session generation. false;
}

evaluate-Within_example : Within (allowed 1) 0xB0E
unfolding evaluate ancestor_chain last_is_root find entry_matches and_not
evaluate-Within_example = evaluate-Within database lobby 7 1 none 0xB0E refl

abbrev before : Progress
before = record { granted = 0xB0E; traverse = true; write = false }

eval_rows_lem_example :
    bit 0xB0E 3 ≡ or_else (last_word (counts database lobby 7 1 none 1) 3 entries) (bit 0xB0E 3)
unfolding eval_rows entry_matches and_not
eval_rows_lem_example = eval_rows_lem database lobby 7 1 none 1 entries before before 3 refl refl

-- The superuser, who has session 3 under the generation 2.
abbrev super_user : User
super_user = record {
  session_id = 3;
  generation = 2;
  revision = 0;
  user_id = 9;
  channel_id = 0;
  access_tokens = [];
  external_groups = [];
  external_identity = false;
  certificate_verified = false;
  cert_hash = [];
  is_super_user = true;
}

check-stale_example :
    check database lobby
      ((3, super_user) ∷ [])
      (record { session_id = 3; user_id = 9; generation = 1 })
      1
      enter_bit
    ≡ false
unfolding find
check-stale_example =
    check-stale database lobby ((3, super_user) ∷ [])
      (record { session_id = 3; user_id = 9; generation = 1 }) super_user 1 enter_bit refl
      (λ e. omega arith) (λ e. omega arith) (λ e. omega arith) (λ e. omega arith)
