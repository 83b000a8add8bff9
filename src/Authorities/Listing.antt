-- ===== src/Authorities/Listing.antt =====
-- `readAuthority` and `listAuthoritiesForQuery` of src/modules/authorities/service.ts, and
-- `listAuthorities` of its repo.ts.
use helpan_ai.Prelude.{ℕ, ◌+◌, ◌*◌, String, Bool, true, false, ◌&&◌, Option, none, some, List, map}
use helpan_ai.Store.{Db}
use helpan_ai.Store.Rows.{DelegatedAuthorityRow, AuthorityStatus}
use helpan_ai.Store.Tx.{Result, ok, err, coded}
use helpan_ai.Paging.{Cursor, list_page, text_is}
use helpan_ai.Authorities.Types.{AuthorityDto, to_dto}
use helpan_ai.Authorities.Repo.{get_authority_by_id}

abbrev dto_of : Option DelegatedAuthorityRow → Option AuthorityDto
dto_of none = none
dto_of (some row) = some (to_dto row none)

unfoldable pub read_authority : Db → String → Option AuthorityDto
unfolding to_dto
read_authority db id = dto_of (get_authority_by_id db.delegated_authorities id)

pub record ListAuthoritiesArgs : Type 0 where
  pub status : Option AuthorityStatus
  pub agent_id : Option String
  pub account_uuid : Option String
  -- `some none` is a cursor that does not decode.
  pub cursor : Option (Option Cursor)
  pub limit : Option ℕ

abbrev status_is : Option AuthorityStatus → AuthorityStatus → Bool
status_is none status = true
status_is (some AuthorityStatus.active) AuthorityStatus.active = true
status_is (some AuthorityStatus.expired) AuthorityStatus.expired = true
status_is (some AuthorityStatus.revoked) AuthorityStatus.revoked = true
status_is _ _ = false

abbrev pub authority_filter : ListAuthoritiesArgs → DelegatedAuthorityRow → Bool
authority_filter args row =
    status_is args.status row.status
    && (text_is args.agent_id row.agent_id && text_is args.account_uuid row.account_uuid)

abbrev decoded : Option (Option Cursor) → Result (Option Cursor)
decoded none = ok none
decoded (some none) = err (coded "REQ_INVALID" 400 (some "cursor"))
decoded (some (some c)) = ok (some c)

-- `micros` is what `issued_at` has beyond its milliseconds, which the rows leave out.
unfoldable pub list_authorities_for_query :
    (DelegatedAuthorityRow → ℕ)
    → Db
    → ListAuthoritiesArgs
    → Result (List AuthorityDto × Option Cursor)
unfolding to_dto
list_authorities_for_query micros db args = elim (decoded args.cursor) [
  | err e ↦ err e
  | ok cursor ↦
      let page =
        list_page (λ (r : DelegatedAuthorityRow). r.issued_at * 1000 + micros r) (λ r. r.id)
          (authority_filter args) cursor args.limit db.delegated_authorities in
      ok (map (λ r. to_dto r none) page.0, page.1)
]
