-- ===== src/Ban/Tests.antt =====
-- A ban of 10.128.0.0 with the mask 9.
use go_mumble_server.Base.{ℕ, ◌≡◌, ◌+◌, ◌*◌, ◌⊎◌, refl, List, [], ◌∷◌, some, true, false, arith}
use go_mumble_server.Ban.{BanEntry, Row, Manager, Database, replace, list, match_addr, is_banned}
use go_mumble_server.Ban.Match.{
  agree, match_addr_lem, retimed, as_stored, list-replace, is_banned-retimed,
}

abbrev subnet : List ℕ
subnet = 10 ∷ 128 ∷ 0 ∷ 0 ∷ []

-- 10.2.3.4 is outside the subnet, and the entry covers it.
abbrev outside : List ℕ
outside = 10 ∷ 2 ∷ 3 ∷ 4 ∷ []

match_addr_lem_example : match_addr (some outside) subnet (1 * 8 + 1) ≡ agree 4 1 1 outside subnet
match_addr_lem_example = match_addr_lem outside subnet 1 1 (omega arith) (omega arith)

covers_outside : match_addr (some outside) subnet 9 ≡ true
unfolding match_addr
covers_outside = refl

abbrev one_ban : List BanEntry
one_ban =
    record {
      addr = subnet;
      mask = 8;
      hash = [];
      name = [];
      reason = [];
      start = 100;
      duration = 60;
      active = true;
    }
    ∷ []

is_banned-retimed_example :
    is_banned (λ s. s) (retimed (λ b. 7) (λ b. 1) one_ban) (some outside) []
    ≡ is_banned (λ s. s) one_ban (some outside) []
is_banned-retimed_example = is_banned-retimed (λ s. s) one_ban (some outside) [] (λ b. 7) (λ b. 1)

abbrev one_row : List Row
one_row =
    record {
      addr = subnet;
      mask = 0;
      hash = [];
      name = [];
      reason = [];
      start = 100;
      duration = 60;
    }
    ∷ []

abbrev no_bans : Manager
no_bans = record { table = []; entries = [] }

abbrev database : Database
database = record { finds = true; deletes = true; creates = λ row. true }

list-replace_example :
    let r = replace (λ s. s) database no_bans one_row in
    ((r.1 ≡ true)
      × (r.0.table ≡ as_stored (λ s. s) one_row)
      × (((true ≡ true) × (list r.0.entries ≡ as_stored (λ s. s) one_row))
          ⊎ ((true ≡ false) × (r.0.entries ≡ no_bans.entries))))
    ⊎ ((r.1 ≡ false) × (r.0.entries ≡ no_bans.entries))
list-replace_example = list-replace (λ s. s) database no_bans one_row (λ s. refl)
