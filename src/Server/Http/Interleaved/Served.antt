-- ===== src/Server/Http/Interleaved/Served.antt =====
-- Requests in any interleaving: the store stays a ledger, and each token that is answered is one
-- that the issuer signed for the client that asked.
use sponsor.Common.{ℕ, zero, suc, ◌≡◌, refl, ap, ◌∙◌, ◌<◌, List, [], ◌∷◌, All, map}
use sponsor.Common.Words.{u64_max}
use sponsor.Common.Text.{Text}
use sponsor.Crates.{Crates}
use sponsor.Server.Store.Redb.{Redb}
use sponsor.Server.State.{AppState}
use sponsor.Server.Http.{token_json, now_unix}
use sponsor.Server.Http.Fund.Ledger.{IsConsistent, IsLedger}
use sponsor.Server.Http.Interleaved.{
  Call, Phase, received, verified, missed, answered, Task, step_at, interleave,
}
use sponsor.Server.Http.Interleaved.Steps.{Grows}
use sponsor.Server.Http.Interleaved.Parts.{IsServed, IsSound, IsSound-later, advance-Advanced}

module _ (crates : Crates) (redb : Redb crates.Address crates.address_discrete) {Chain : Type 0}
    (state : AppState crates Chain) where
  open crates use {Address}
  open redb use {Db}

  -- Every task is sound, and reads a clock before the last 64-bit second.
  abbrev AllSound : List (Task Address) → Db → Type 0
  AllSound ts db =
      All
        (λ (t : Task Address).
          IsSound crates redb state t.call t.phase db × (now_unix t.call.time < u64_max))
        ts

  AllSound-later :
      (ts : List (Task Address)) (db db' : Db)
      → Grows crates redb state db db'
      → AllSound ts db
      → AllSound ts db'
  AllSound-later [] db db' g s = tt
  AllSound-later (t ∷ ts) db db' g ((s, now), rest) = (
    (IsSound-later crates redb state t.call t.phase db db' g s, now),
    AllSound-later ts db db' g rest,
  )

  record AllAdvanced (db : Db) (ts : List (Task Address)) (db' : Db) : Type 0 where
    all_sound : AllSound ts db'
    ledger : IsLedger crates redb state db'
    grows : Grows crates redb state db db'

  module _ (c : IsConsistent crates redb state) (ttl : 0 < state.issuer.ttl_secs) where
    step_at-AllAdvanced :
        (i : ℕ) (ts : List (Task Address)) (db : Db)
        → IsLedger crates redb state db
        → AllSound ts db
        → AllAdvanced db (step_at crates redb state i ts db).0 (step_at crates redb state i ts db).1
    unfolding step_at
    step_at-AllAdvanced i [] db l s = record { all_sound = s; ledger = l; grows = λ j had. had }
    step_at-AllAdvanced zero (t ∷ ts) db l ((s, now), rest) =
        let a = advance-Advanced crates redb state c ttl t.call now db l t.phase s in
        record {
          all_sound = ((a.sound, now), AllSound-later ts db _ a.grows rest);
          ledger = a.ledger;
          grows = a.grows;
        }
    step_at-AllAdvanced (suc i) (t ∷ ts) db l ((s, now), rest) =
        let a = step_at-AllAdvanced i ts db l rest in
        record {
          all_sound =
              ((IsSound-later crates redb state t.call t.phase db _ a.grows s, now), a.all_sound);
          ledger = a.ledger;
          grows = a.grows;
        }

    interleave-AllAdvanced :
        (order : List ℕ) (ts : List (Task Address)) (db : Db)
        → IsLedger crates redb state db
        → AllSound ts db
        → AllAdvanced db
            (interleave crates redb state order ts db).0
            (interleave crates redb state order ts db).1
    unfolding interleave
    interleave-AllAdvanced [] ts db l s = record { all_sound = s; ledger = l; grows = λ j had. had }
    interleave-AllAdvanced (i ∷ order) ts db l s =
        let a = step_at-AllAdvanced i ts db l s in
        let b =
          interleave-AllAdvanced order (step_at crates redb state i ts db).0 _ a.ledger
            a.all_sound in
        record {
          all_sound = b.all_sound;
          ledger = b.ledger;
          grows = λ j had. b.grows j (a.grows j had);
        }

  -- The requests as they come in.
  abbrev pub arrived : List Call → List (Task Address)
  arrived = map (λ v. record { call = v; phase = received })

  arrived-AllSound :
      (calls : List Call) (db : Db)
      → All (λ (v : Call). now_unix v.time < u64_max) calls
      → AllSound (arrived calls) db
  arrived-AllSound [] db h = tt
  arrived-AllSound (v ∷ calls) db (now, h) = ((tt, now), arrived-AllSound calls db h)

  abbrev pub ServedIn : Db → Task Address → Type 0
  ServedIn db t =
      (token : Text)
      → t.phase ≡ answered (token_json token)
      → IsServed crates redb state t.call token db

  AllSound-Served : (ts : List (Task Address)) (db : Db) → AllSound ts db → All (ServedIn db) ts
  AllSound-Served [] db s = tt
  AllSound-Served (t ∷ ts) db ((s, now), rest) = (of_phase t.phase s, AllSound-Served ts db rest)
    where
      of_phase :
          (phase : Phase Address)
          → IsSound crates redb state t.call phase db
          → (token : Text) → phase ≡ answered (token_json token)
          → IsServed crates redb state t.call token db
      of_phase received s token e = absurd (cc)
      of_phase (verified client) s token e = absurd (cc)
      of_phase (missed client) s token e = absurd (cc)
      of_phase (answered resp) s token e = s token (cc)

  abbrev pub calls_of : List (Task Address) → List Call
  calls_of = map (λ t. t.call)

  calls_of-step_at :
      (i : ℕ) (ts : List (Task Address)) (db : Db)
      → calls_of (step_at crates redb state i ts db).0 ≡ calls_of ts
  unfolding step_at
  calls_of-step_at i [] db = refl
  calls_of-step_at zero (t ∷ ts) db = refl
  calls_of-step_at (suc i) (t ∷ ts) db = ap (λ vs. t.call ∷ vs) (calls_of-step_at i ts db)

  calls_of-interleave :
      (order : List ℕ) (ts : List (Task Address)) (db : Db)
      → calls_of (interleave crates redb state order ts db).0 ≡ calls_of ts
  unfolding interleave
  calls_of-interleave [] ts db = refl
  calls_of-interleave (i ∷ order) ts db =
      calls_of-interleave order (step_at crates redb state i ts db).0 _ ∙ calls_of-step_at i ts db

  calls_of-arrived : (calls : List Call) → calls_of (arrived calls) ≡ calls
  calls_of-arrived [] = refl
  calls_of-arrived (v ∷ calls) = ap (λ vs. v ∷ vs) (calls_of-arrived calls)

  -- In any interleaving of the parts of any `POST /fund` requests (the captcha, the lookup, the
  -- write), from a store that is a ledger, with a consistent configuration, a lifetime of more
  -- than 0 seconds and clocks before the last 64-bit second: no request is lost, the store stays a
  -- ledger, and a request that is answered with a token names an address and had its captcha
  -- passed, the token is that of a record that the issuer signed for this address and that is live
  -- at the clock of the request, and the store holds a record for this address.
  pub interleave-Served :
      IsConsistent crates redb state
      → 0 < state.issuer.ttl_secs
      → (order : List ℕ) (calls : List Call) (db : Db)
      → All (λ (v : Call). now_unix v.time < u64_max) calls
      → IsLedger crates redb state db
      → (calls_of (interleave crates redb state order (arrived calls) db).0 ≡ calls)
        × IsLedger crates redb state (interleave crates redb state order (arrived calls) db).1
        × All
            (ServedIn (interleave crates redb state order (arrived calls) db).1)
            (interleave crates redb state order (arrived calls) db).0
  interleave-Served c ttl order calls db times l =
      let a =
        interleave-AllAdvanced c ttl order (arrived calls) db l (arrived-AllSound calls db times) in
      (
        calls_of-interleave order (arrived calls) db ∙ calls_of-arrived calls,
        a.ledger,
        AllSound-Served _ _ a.all_sound,
      )
