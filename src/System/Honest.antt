-- ===== src/System/Honest.antt =====
-- The gateway that the server is: it answers a client with tokens for this client only.
use sponsor.Common.{
  ℕ, ◌≡◌, refl, sym, ap, subst, ◌∙◌, Bool, true, false, Option, none, some, List, [], ◌∷◌, ◌++◌,
  if◌then◌else◌, arith,
}
use sponsor.Common.Result.{Result, ok, err}
use sponsor.Common.Action.{Action, Ends, Ends-ok, resume, lift}
use sponsor.Common.Text.{Text, lit, text_eq}
use sponsor.Crates.{Crates}
use sponsor.Server.Store.{GrantRecord}
use sponsor.Server.Store.Redb.{Redb}
use sponsor.Server.Store.Grants.{get_grant_reads}
use sponsor.Server.Store.Table.{get_grant}
use sponsor.Server.State.{AppState}
use sponsor.Server.Http.{SystemTime, now_unix}
use sponsor.Server.Http.Capability.{get}
use sponsor.Server.Http.Fund.Ledger.{IsConsistent, IsIssued, row-IsIssued}
use sponsor.Server.Http.Router.{Axum, Assets, serve, route_of}
use sponsor.Wrapper.Api.{Net, CapabilityInfo, Reply, info_of, get_capability}
use sponsor.Wrapper.Api.Contract.{reply_of, learned, get-learned}
use sponsor.Wrapper.Config.{WrapperConfig}
use sponsor.Wrapper.Session.Identity.{Identity}
use sponsor.Wrapper.Flow.Gateway.{IsFor, IsHonest}
use sponsor.Wrapper.Session.{normalize_hash}
use sponsor.Wrapper.Session.Reads.{session_of}
use sponsor.Wrapper.Session.Pairing.{IsPaired}
use sponsor.Wrapper.Flow.{Machine, pull}
use sponsor.Wrapper.Flow.Finished.{Finished, pull-Finished}
use sponsor.System.{Wire, Node, next, gateway, response, found_db, found_db-IsLedger}

learned-some :
    (now : ℕ) (o : Result (Option GrantRecord)) (info : CapabilityInfo)
    → learned now o ≡ ok (some info)
    → (rec : GrantRecord) × (o ≡ ok (some rec)) × (rec.token ≡ info.token)
learned-some now (ok (some rec)) info h = (rec, refl, ground arith)
learned-some now (ok none) info h = absurd (cc)
learned-some now (err e) info h = absurd (cc)

-- An answer that is read is one that arrived.
arrived-reply :
    {S : Type 0} (arrives : Bool) (reply : Reply) (s : S) (info : CapabilityInfo)
    → (resume
        (λ r. lift (info_of r))
        (if arrives then ok reply else err "error sending request")
        s).0
      ≡ ok (some info)
    → info_of reply ≡ ok (some info)
arrived-reply true reply s info h = h
arrived-reply false reply s info h = absurd (cc)

module _ (crates : Crates) (redb : Redb crates.Address crates.address_discrete) {Chain Req : Type 0}
    (axum : Axum Req) (assets : Assets) (state : AppState crates Chain)
    (c : IsConsistent crates redb state) (identity : Identity crates) (cfg : WrapperConfig crates)
    (wire : Wire axum cfg.gateway_base) where
  open crates use {Address, show_address}

  abbrev net : Net (Node crates redb axum assets state c)
  net = gateway crates redb axum assets state c cfg.gateway_base wire

  abbrev url : Text
  url = cfg.gateway_base ++ lit "/capability"

  abbrev query : Address → List (Text × Text)
  query client = (lit "client", show_address client) ∷ []

  -- The request is routed to `get`, with the printed address.
  response-get :
      (client : Address) (node : Node crates redb axum assets state c)
      → (response crates redb axum assets state c cfg.gateway_base wire url (query client) node).0
        ≡ (get crates redb
            (next node.turns).time
            (show_address client)
            (found_db crates redb axum assets state c cfg.gateway_base wire node)).0
  unfolding serve route_of text_eq
  response-get client node =
      rw
        (
          wire.sent-path (show_address client),
          wire.sent-method (show_address client),
          wire.sent-client (show_address client),
        )
        refl

  IsFor-of_IsIssued :
      (client : Address) (rec : GrantRecord)
      → IsIssued crates redb state client rec
      → IsFor crates identity net cfg client rec.token
  IsFor-of_IsIssued client rec i = record {
    text = i.delegates.text;
    grant = i.delegates.grant;
    says = rw i.delegates.trimmed i.delegates.decoded;
    signer = i.delegates.signer;
  }

  answered-IsFor :
      (client : Address) (node : Node crates redb axum assets state c) (info : CapabilityInfo)
      → info_of (
          reply_of
            (response crates redb axum assets state c cfg.gateway_base wire url
              (query client)
              node).0)
        ≡ ok (some info)
      → IsFor crates identity net cfg client info.token
  answered-IsFor client node info h =
      let db = found_db crates redb axum assets state c cfg.gateway_base wire node in
      let read =
        sym (get-learned crates redb (next node.turns).time client db)
        ∙ ap (λ resp. info_of (reply_of resp)) (sym (response-get client node))
        ∙ h in
      let (rec, got, same) =
        learned-some (now_unix (next node.turns).time) (get_grant crates redb client db).0 info
          read in
      let (row, kept) = Ends-ok _ _ _ _ (get_grant_reads crates redb client db) got in
      subst (IsFor crates identity net cfg client) same (
        IsFor-of_IsIssued client rec (
          row-IsIssued crates redb state
            (found_db-IsLedger crates redb axum assets state c cfg.gateway_base wire node) client
            rec row))

  capability-IsFor :
      (client : Address) (w : Node crates redb axum assets state c) (info : CapabilityInfo)
      → (get_capability crates net cfg.gateway_base client w).0 ≡ ok (some info)
      → IsFor crates identity net cfg client info.token
  unfolding get_capability
  capability-IsFor client w info e =
      answered-IsFor client w info (arrived-reply (next w.turns).arrives _ _ info e)

  pub gateway-IsHonest : IsHonest crates identity net cfg
  gateway-IsHonest = record {
    answers = λ client w w' info e. capability-IsFor client w info (ap (λ x. x.0) e);
  }

  -- A pull of the wrapper whose gateway is the server, with a store that is a ledger, a consistent
  -- configuration, clocks before the last 64-bit second, and any requests of others and lost
  -- answers between the requests of the wrapper, where the capability saved in the directory of
  -- the download, if any, belongs to the key saved there: if it succeeds, it has run `decdn` to
  -- success, from a state that held a key and a capability for this key, and has then left nothing
  -- at or below the directory; this for every way in which file calls may fail.
  pub pull-sponsored :
      (spawn : Text → List Text → Action (Machine (Node crates redb axum assets state c)) Bool)
      (filled : Result (List ℕ)) (time : SystemTime) (hash output : Text)
      (m : Machine (Node crates redb axum assets state c))
      → ((hex : Text)
          → normalize_hash hash ≡ ok hex
          → IsPaired crates identity (session_of cfg.data_dir hex) m.disk)
      → Ends
          (λ (u : Unit {0}) m'. Finished crates identity net cfg spawn hash output m')
          (λ (m' : Machine (Node crates redb axum assets state c)). Unit {0})
          (pull crates identity net cfg spawn filled time hash output m)
  pull-sponsored spawn filled time hash output m p =
      pull-Finished crates identity net cfg spawn gateway-IsHonest filled time hash output m p
