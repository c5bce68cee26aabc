-- ===== src/Server/Http/Fund/Again.antt =====
-- The requests of a client that already holds a live grant: the poll, and a second `submit`.
use sponsor.Common.{ℕ, ◌≡◌, ap, sym, ◌∙◌, ◌<◌, true, Option, none, some, arith, lt→ltb}
use sponsor.Common.Result.{ok}
use sponsor.Common.Action.{Ends-ok}
use sponsor.Common.Text.{Text}
use sponsor.Crates.{Crates}
use sponsor.Server.Store.{GrantRecord}
use sponsor.Server.Store.Redb.{Redb}
use sponsor.Server.Store.Grants.{get_grant-rows, get_grant_reads}
use sponsor.Server.Store.Table.{decode_row, get_grant}
use sponsor.Server.State.{AppState}
use sponsor.Server.Http.{token_json, SystemTime, now_unix, parse_client}
use sponsor.Server.Http.Capability.{get, answer}
use sponsor.Server.Http.Fund.{FundRequest, grant, submit}
use sponsor.Server.Http.Fund.Answers.{IsAwarded}

module _ (crates : Crates) (redb : Redb crates.Address crates.address_discrete) {Chain : Type 0}
    (state : AppState crates Chain) where
  open crates use {Address, parse_address}
  open redb use {Db, rows}

  module _ (client : Address) (db : Db) (rec : GrantRecord)
      (held : decode_row (rows db client) ≡ ok (some rec)) where
    -- A read of a held grant that succeeds finds it.
    read_held :
        (o : Option GrantRecord)
        → (get_grant crates redb client db).0 ≡ ok o
        → (get_grant crates redb client db).0 ≡ ok (some rec)
    read_held o found =
        found ∙ sym (Ends-ok _ _ _ _ (get_grant_reads crates redb client db) found).0 ∙ held

    get_held :
        (time : SystemTime) (text : Text)
        → parse_address text ≡ ok client
        → now_unix time < rec.expiry
        → (get_grant crates redb client db).0 ≡ ok (some rec)
        → (get crates redb time text db).0 ≡ token_json rec.token
    unfolding get parse_client
    get_held time text p live found = rw (p, get) (rw (found, answer) (ground arith))

    submit_held :
        (time : SystemTime) (req : FundRequest)
        → parse_address req.client ≡ ok client
        → state.turnstile.verify req.turnstile_token none ≡ ok true
        → now_unix time < rec.expiry
        → (get_grant crates redb client db).0 ≡ ok (some rec)
        → (submit crates redb state time req db).0 ≡ token_json rec.token
    unfolding submit parse_client grant
    submit_held time req p v live found = rw (p, submit) (rw v (rw found (ground arith)))

    submit_held-rows :
        (time : SystemTime) (req : FundRequest)
        → parse_address req.client ≡ ok client
        → state.turnstile.verify req.turnstile_token none ≡ ok true
        → now_unix time < rec.expiry
        → (get_grant crates redb client db).0 ≡ ok (some rec)
        → rows (submit crates redb state time req db).1 ≡ rows db
    unfolding submit parse_client grant
    submit_held-rows time req p v live found =
        rw (p, submit)
          (rw v (rw found (rw (lt→ltb _ _ live) (get_grant-rows crates redb client db))))

  -- While an award has not expired and the store can be read, `GET /capability` answers with its
  -- token, and a later `POST /fund` of the same client that the verifier passes answers with the
  -- same token again and changes no row.
  pub awarded_again :
      (client : Address) (now : ℕ) (token : Text) (db : Db)
      (a : IsAwarded crates redb state client now token db) (time : SystemTime) (req : FundRequest)
      (o : Option GrantRecord)
      → parse_address req.client ≡ ok client
      → state.turnstile.verify req.turnstile_token none ≡ ok true
      → now_unix time < a.rec.expiry
      → (get_grant crates redb client db).0 ≡ ok o
      → ((get crates redb time req.client db).0 ≡ token_json token)
        × ((submit crates redb state time req db).0 ≡ token_json token)
        × (rows (submit crates redb state time req db).1 ≡ rows db)
  awarded_again client now token db a time req o p v live read =
      let found = read_held client db a.rec a.held o read in
      let same = ap token_json a.token_is in
      (
        get_held client db a.rec a.held time req.client p live found ∙ same,
        submit_held client db a.rec a.held time req p v live found ∙ same,
        submit_held-rows client db a.rec a.held time req p v live found,
      )
