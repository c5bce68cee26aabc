-- ===== src/Server/Http/Fund/Outcome.antt =====
-- The ways in which `submit` can end, with what each leaves in the store.
use sponsor.Common.{
  ℕ, ◌≡◌, refl, ap, ◌∙◌, ◌<◌, ◌≤◌, Bool, true, false, Option, none, some, String, arith, ltb,
  Bool-cases, inl, inr, ltb→lt,
}
use sponsor.Common.Result.{Result, ok, err, Result-cases}
use sponsor.Common.Action.{Ends-ok, Ends-err}
use sponsor.Common.Text.{Text}
use sponsor.Crates.{Crates}
use sponsor.Server.Store.{GrantRecord}
use sponsor.Server.Store.Redb.{Redb}
use sponsor.Server.Store.Table.{get_grant, put_grant, decode_row}
use sponsor.Server.Store.Grants.{updated, put_grant_atomic, get_grant_reads, get_grant-rows}
use sponsor.Server.Issuer.{issue}
use sponsor.Server.State.{AppState}
use sponsor.Server.Http.{
  Response, bad_request, forbidden, err_json, token_json, SystemTime, now_unix, parse_client,
}
use sponsor.Server.Http.Fund.{
  FundRequest, internal, record_of, save, reuse_or_issue, grant, after_captcha, submit,
}

-- No grant, or one that has expired.
abbrev pub IsLapsed : ℕ → Option GrantRecord → Type 0
IsLapsed now none = Unit
IsLapsed now (some rec) = rec.expiry ≤ now

module _ (crates : Crates) (redb : Redb crates.Address crates.address_discrete) {Chain : Type 0}
    (state : AppState crates Chain) where
  open crates use {Address, parse_address}
  open redb use {Db, rows}

  pub data Granted (client : Address) (now : ℕ) (db : Db) (resp : Response) (db' : Db)
      : Type 0 where
    failed : resp ≡ internal → rows db' ≡ rows db → Granted client now db resp db'
    reused :
        (rec : GrantRecord)
        → decode_row (rows db client) ≡ ok (some rec)
        → now < rec.expiry
        → resp ≡ token_json rec.token
        → rows db' ≡ rows db
        → Granted client now db resp db'
    fresh :
        (o : Option GrantRecord) (token : Text) (expiry : ℕ)
        → decode_row (rows db client) ≡ ok o
        → IsLapsed now o
        → issue crates state.issuer client now ≡ ok (token, expiry)
        → resp ≡ token_json token
        → rows db'
          ≡ updated crates redb client (record_of crates redb state token expiry now) (rows db)
        → Granted client now db resp db'

  module _ (client : Address) (now : ℕ) (db : Db) where
    save-Granted :
        (o : Option GrantRecord) (issued : Result (Text × ℕ)) (db₁ : Db)
        → decode_row (rows db client) ≡ ok o
        → IsLapsed now o
        → issue crates state.issuer client now ≡ issued
        → rows db₁ ≡ rows db
        → Granted client now db
            (save crates redb state client now issued db₁).0
            (save crates redb state client now issued db₁).1
    save-Granted o (err e) db₁ read lapsed issued same = failed refl same
    save-Granted o (ok (token, expiry)) db₁ read lapsed issued same =
        let rec = record_of crates redb state token expiry now in
        let atomic = put_grant_atomic crates redb client rec db₁ in
        elim (Result-cases (put_grant crates redb client rec db₁).0) [
          | inl (u, put) ↦
              fresh o token expiry read lapsed issued (rw put)
                (Ends-ok _ _ _ _ atomic put ∙ ap (updated crates redb client rec) same)
          | inr (e, put) ↦ failed (rw put) (Ends-err _ _ _ _ atomic put ∙ same)
        ]

    reuse_or_issue-Granted :
        (found : Result (Option GrantRecord)) (db₁ : Db)
        → ((o : Option GrantRecord) → found ≡ ok o → decode_row (rows db client) ≡ ok o)
        → rows db₁ ≡ rows db
        → Granted client now db
            (reuse_or_issue crates redb state client now found db₁).0
            (reuse_or_issue crates redb state client now found db₁).1
    reuse_or_issue-Granted (ok (some rec)) db₁ reads same = elim (Bool-cases (ltb now rec.expiry)) [
      | inl live ↦
          rw live (reused rec (reads (some rec) refl) (ltb→lt now rec.expiry live) refl same)
      | inr lapsed ↦
          rw lapsed (save-Granted (some rec) _ db₁ (reads (some rec) refl) (ground arith) refl same)
    ]
    reuse_or_issue-Granted (ok none) db₁ reads same =
        save-Granted none _ db₁ (reads none refl) tt refl same
    reuse_or_issue-Granted (err e) db₁ reads same = failed refl same

    pub grant-Granted :
        Granted client now db
          (grant crates redb state client now db).0
          (grant crates redb state client now db).1
    unfolding grant
    grant-Granted =
        reuse_or_issue-Granted (get_grant crates redb client db).0
          (get_grant crates redb client db).1
          (λ o found. (Ends-ok _ _ _ _ (get_grant_reads crates redb client db) found).0)
          (get_grant-rows crates redb client db)

  -- How a request ends: turned away with the store as it was, or after a captcha that was passed.
  pub data Submitted (time : SystemTime) (req : FundRequest) (db : Db) (resp : Response) (db' : Db)
      : Type 0 where
    bad_client :
        (e : String)
        → parse_address req.client ≡ err e
        → resp ≡ err_json bad_request "bad_request"
        → db' ≡ db
        → Submitted time req db resp db'
    bad_captcha :
        (client : Address)
        → parse_address req.client ≡ ok client
        → state.turnstile.verify req.turnstile_token none ≡ ok false
        → resp ≡ err_json forbidden "captcha_failed"
        → db' ≡ db
        → Submitted time req db resp db'
    no_captcha :
        (client : Address) (e : String)
        → parse_address req.client ≡ ok client
        → state.turnstile.verify req.turnstile_token none ≡ err e
        → resp ≡ internal
        → db' ≡ db
        → Submitted time req db resp db'
    passed :
        (client : Address)
        → parse_address req.client ≡ ok client
        → state.turnstile.verify req.turnstile_token none ≡ ok true
        → Granted client (now_unix time) db resp db'
        → Submitted time req db resp db'

  module _ (time : SystemTime) (req : FundRequest) (db : Db) where
    verified :
        (client : Address) (checked : Result Bool)
        → parse_address req.client ≡ ok client
        → state.turnstile.verify req.turnstile_token none ≡ checked
        → Submitted time req db
            (after_captcha crates redb state client (now_unix time) checked db).0
            (after_captcha crates redb state client (now_unix time) checked db).1
    verified client (ok true) is_client passes =
        passed client is_client passes (grant-Granted client (now_unix time) db)
    verified client (ok false) is_client fails = bad_captcha client is_client fails refl refl
    verified client (err e) is_client fails = no_captcha client e is_client fails refl refl

    -- Every answer of `POST /fund`, for any database, client text, clock, verifier and issuer: a
    -- client that does not parse and a verifier that fails or refuses get their error and nothing
    -- is read or written; after a pass the answer is an internal error that leaves every row as it
    -- was, the token of a stored record that has not lapsed, or a new token, whose record is then
    -- the row of that client and the only row that changed.
    pub submit-Submitted :
        Submitted time req db
          (submit crates redb state time req db).0
          (submit crates redb state time req db).1
    unfolding submit parse_client
    submit-Submitted = elim (Result-cases (parse_address req.client)) [
      | inl (client, is_client) ↦ rw (is_client, submit) (verified client _ is_client refl)
      | inr (e, is_none) ↦ rw (is_none, submit) (bad_client e is_none refl refl)
    ]
