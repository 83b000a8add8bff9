-- ===== src/Tests/Pages.antt =====
-- Pages of briefings at concrete inputs.
use helpan_ai.Prelude.{ℕ, String, Bool, none, some, List, [], ◌∷◌, ◌≡◌, refl, arith, inr}
use helpan_ai.Json.{end}
use helpan_ai.Store.Briefings.{BriefingRow, BriefingType, BriefingStatus}
use helpan_ai.Paging.{list_page}
use helpan_ai.Paging.Pages.{read_pages, all_rows, read_pages-all_rows}
use helpan_ai.Briefings.Repo.{list_briefings_page, briefing_filter}

abbrev row : String → ℕ → BriefingRow
row id created = record {
  id = id;
  account_uuid = "acc_1";
  app_id = "app_planner";
  agent_id = none;
  briefing_type = BriefingType.alert;
  status = BriefingStatus.active;
  intent = end;
  expires_at = none;
  app_correlation_id = none;
  created_at = created;
  updated_at = created;
  revoked_at = none;
}

abbrev table : List BriefingRow
table = row "brf_1" 5_000 ∷ row "brf_2" 7_000 ∷ []

abbrev keeps : BriefingRow → Bool
keeps = briefing_filter "acc_1" none none

read_pages-all_rows_example :
    read_pages (λ (r : BriefingRow). r.created_at) (λ r. r.id) keeps (some 1) table 2 none
    ≡ all_rows (λ (r : BriefingRow). r.created_at) (λ r. r.id) keeps (some 1) table
read_pages-all_rows_example =
    read_pages-all_rows (λ (r : BriefingRow). r.created_at) (λ r. r.id) keeps (some 1) table
      (refl, (refl, tt))
      ((inr (inr refl), (inr (inr refl), tt)), ((inr (inr refl), (inr (inr refl), tt)), tt)) 2
      (omega arith)

-- Two rows of one millisecond: the first page's cursor drops 300 microseconds, and with them the
-- second row, which no page shows.
abbrev crowded : List BriefingRow
crowded = row "brf_1" 5_100 ∷ row "brf_2" 5_300 ∷ []

first_page :
    list_briefings_page "acc_1" none none none (some 1) crowded
    ≡ (row "brf_2" 5_300 ∷ [], some (record { ms = 5; id = "brf_2" }))
unfolding list_briefings_page list_page
first_page = refl

second_page :
    list_briefings_page "acc_1" none none (some (record { ms = 5; id = "brf_2" })) (some 1) crowded
    ≡ ([], none)
unfolding list_briefings_page list_page
second_page = refl
