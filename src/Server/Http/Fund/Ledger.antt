-- ===== src/Server/Http/Fund/Ledger.antt =====
-- The ledger that the store keeps: every stored grant is a capability signed for its own signer.
use mathlib.Core.Logic.{ite}
use sponsor.Common.{ℕ, ◌≡◌, refl, ap, sym, ◌∙◌, List, Option, none, some, subst}
use sponsor.Common.Result.{ok}
use sponsor.Common.Words.{IsU64}
use sponsor.Common.Text.{Text}
use sponsor.Crates.{Crates}
use sponsor.Server.Store.{GrantRecord, IsRecord, encode}
use sponsor.Server.Store.Redb.{Redb}
use sponsor.Server.Store.Grants.{updated, decode_row-encode}
use sponsor.Server.Store.Table.{decode_row}
use sponsor.Server.Issuer.{issue}
use sponsor.Server.Issuer.Laws.{Delegates, issue-Delegates}
use sponsor.Server.State.{AppState}
use sponsor.Server.Http.{Response, SystemTime, now_unix}
use sponsor.Server.Http.Fund.{FundRequest, record_of, submit}
use sponsor.Server.Http.Fund.Outcome.{
  Granted, failed, reused, fresh, Submitted, bad_client, bad_captcha, no_captcha, passed,
  submit-Submitted,
}

module _ (crates : Crates) (redb : Redb crates.Address crates.address_discrete) {Chain : Type 0}
    (state : AppState crates Chain) where
  open crates use {Address, address_discrete}
  open redb use {Db, rows}

  -- The issuer signs what the configuration says, and the amounts are 64-bit numbers.
  pub record IsConsistent : Type 0 where
    pub same_cap : state.cfg.capability_cap.micros ≡ state.issuer.spending_cap
    pub cap_IsU64 : IsU64 state.cfg.capability_cap.micros

  -- A record of a capability that the issuer signed for `client`.
  pub record IsIssued (client : Address) (rec : GrantRecord) : Type 0 where
    pub delegates : Delegates crates state.issuer client rec.issued_unix rec.token rec.expiry
    pub cap_is : rec.spending_cap ≡ state.issuer.spending_cap
    pub is_record : IsRecord rec

  -- Every row is such a record, under its own signer.
  pub record IsLedger (db : Db) : Type 0 where
    pub row :
        (client : Address) (raw : List ℕ)
        → rows db client ≡ some raw
        → (rec : GrantRecord) × (raw ≡ encode rec) × IsIssued client rec

  pub IsIssued-record_of :
      IsConsistent
      → (client : Address) (now : ℕ) (token : Text) (expiry : ℕ) → IsU64 now
      → issue crates state.issuer client now ≡ ok (token, expiry)
      → IsIssued client (record_of crates redb state token expiry now)
  IsIssued-record_of c client now token expiry h issued =
      let d = issue-Delegates crates state.issuer client now token expiry issued in
      record {
        delegates = d;
        cap_is = c.same_cap;
        is_record = record {
          cap_IsU64 = c.cap_IsU64;
          expiry_IsU64 = d.in_range;
          issued_IsU64 = h;
          token_IsText = d.text;
        };
      }

  -- A grant that a ledger's row decodes to is one that the issuer signed.
  pub row-IsIssued :
      {db : Db}
      → IsLedger db
      → (client : Address) (rec : GrantRecord) → decode_row (rows db client) ≡ ok (some rec)
      → IsIssued client rec
  unfolding decode_row
  row-IsIssued {db} l client rec read = from (rows db client) refl
    where
      from : (o : Option (List ℕ)) → rows db client ≡ o → IsIssued client rec
      from none e =
          let nothing : ok none ≡ ok (some rec) = sym (ap decode_row e) ∙ read in absurd (cc)
      from (some raw) e =
          let (rec', same, i) = l.row client raw e in
          let decoded : ok (some rec') ≡ ok (some rec) =
            sym (decode_row-encode rec' i.is_record)
            ∙ ap (λ r. decode_row (some r)) (sym same)
            ∙ ap decode_row (sym e)
            ∙ read in
          subst (IsIssued client) (cc) i

  abbrev RowOf : Address → Option (List ℕ) → Type 0
  RowOf j o =
      (raw : List ℕ) → o ≡ some raw → (rec : GrantRecord) × (raw ≡ encode rec) × IsIssued j rec

  updated-RowOf :
      (db : Db) (client j : Address) (rec : GrantRecord)
      → IsLedger db
      → IsIssued client rec
      → RowOf j (updated crates redb client rec (rows db) j)
  updated-RowOf db client j rec l i =
      elim (address_discrete client j) as (λ d. RowOf j (ite d (some (encode rec)) (rows db j))) [
        | yes same ↦ λ raw e. (rec, (cc), subst (λ a. IsIssued a rec) same i)
        | no other ↦ l.row j
      ]

  pub IsLedger-of_rows : {db db' : Db} → rows db' ≡ rows db → IsLedger db → IsLedger db'
  IsLedger-of_rows same l = record { row = λ j raw e. l.row j raw (rw same at e) }

  -- A row with a record that the issuer signed for its client keeps a ledger.
  pub IsLedger-of_updated :
      (db : Db) (client : Address) (rec : GrantRecord)
      → IsLedger db
      → IsIssued client rec
      → {db' : Db} → rows db' ≡ updated crates redb client rec (rows db)
      → IsLedger db'
  IsLedger-of_updated db client rec l i wrote = record {
    row = λ j.
        subst (λ (f : Address → Option (List ℕ)). RowOf j (f j)) (sym wrote)
          (updated-RowOf db client j rec l i);
  }

  Granted-IsLedger :
      IsConsistent
      → (client : Address) (now : ℕ) (db db' : Db) (resp : Response) → IsU64 now
      → IsLedger db
      → Granted crates redb state client now db resp db'
      → IsLedger db'
  Granted-IsLedger c client now db db' resp h l (failed answer same) = IsLedger-of_rows same l
  Granted-IsLedger c client now db db' resp h l (reused rec read live answer same) =
      IsLedger-of_rows same l
  Granted-IsLedger c client now db db' resp h l
        (fresh o token expiry read lapsed issued answer wrote) =
      IsLedger-of_updated db client _ l (IsIssued-record_of c client now token expiry h issued)
        wrote

  -- When the cap of the configuration is that of the issuer and fits 64 bits, and the clock fits
  -- 64 bits, `POST /fund` keeps the invariant that every row is the encoding of a record whose
  -- token delegates from the pool of the issuer to the client of the row, up to the cap and until
  -- the expiry of the record.
  pub submit-IsLedger :
      (c : IsConsistent) (time : SystemTime) (req : FundRequest) (db : Db)
      → IsU64 (now_unix time)
      → IsLedger db
      → IsLedger (submit crates redb state time req db).1
  submit-IsLedger c time req db h l = from (submit-Submitted crates redb state time req db)
    where
      from :
          {resp : Response} {db' : Db}
          → Submitted crates redb state time req db resp db'
          → IsLedger db'
      from (bad_client e p answer same) = subst IsLedger (sym same) l
      from (bad_captcha client p v answer same) = subst IsLedger (sym same) l
      from (no_captcha client e p v answer same) = subst IsLedger (sym same) l
      from (passed client p v g) = Granted-IsLedger c client (now_unix time) db _ _ h l g
