-- ===== src/Samples/Memory.antt =====
-- A database in memory, keyed by the two sample addresses. One that is broken refuses every write.
use mathlib.Core.Logic.{ite}
use sponsor.Common.{
  ℕ, String, ◌≢◌, ◌≡◌, refl, ap, Bool, true, false, List, Option, none, some, if◌then◌else◌,
}
use sponsor.Common.Result.{Result, ok, err}
use sponsor.Server.Store.Redb.{Redb}
use sponsor.Samples.{same}

pub record MemoryDb : Type 0 where
  pub table : Bool → Option (List ℕ)
  pub broken : Bool

abbrev Table : Type 0
Table = Bool → Option (List ℕ)

abbrev start : MemoryDb → Result Table × MemoryDb
start d = ((if d.broken then err "read only" else ok d.table), d)

pub start-table : (d : MemoryDb) (w : Table) → (start d).0 ≡ ok w → w ≡ d.table
start-table d w h = from d.broken h
  where
    from : (b : Bool) → (if b then err "read only" else ok d.table) ≡ ok w → w ≡ d.table
    from true e = cc
    from false e = cc

pub ok-eq : (w w' : Table) → ok w ≡ ok w' → w' ≡ w
ok-eq w w' h = cc

abbrev write : Table → Bool → List ℕ → Table
write t k v j = ite (same k j) (some v) (t j)

pub write-at :
    (w w' : Table) (k : Bool) (v : List ℕ)
    → ok (write w k v) ≡ ok w'
    → (j : Bool) → w' j ≡ ite (same k j) (some v) (w j)
write-at w w' k v h j = ap (λ (t : Table). t j) (ok-eq (write w k v) w' h)

pub ok-ne-err : (e : String) → ◌≢◌ {A = Result (Unit {0})} (ok tt) (err e)
ok-ne-err e h = cc

pub row-eq : (r : Table) (k : Bool) (o : Option (List ℕ)) → ok (r k) ≡ ok o → o ≡ r k
row-eq r k o h = cc

abbrev pub memory : Redb Bool same
memory = record {
  Disk = Unit {0};
  Db = MemoryDb;
  WriteTxn = Table;
  ReadTxn = Table;
  create_dir_all = λ dir d. (ok tt, d);
  create = λ path d. (ok (record { table = λ k. none; broken = false }), d);
  begin_write = start;
  open_table = λ w. ok w;
  insert = λ w k v. ok (write w k v);
  commit = λ w d. (ok tt, record d { table = w });
  begin_read = λ d. (ok d.table, d);
  open_read_table = λ r. ok r;
  get = λ r k. ok (r k);
  rows = λ d. d.table;
  staged = λ w. w;
  seen = λ r. r;
  begin_write-rows = λ d. refl;
  begin_write-staged = start-table;
  open_table-staged = ok-eq;
  insert-staged = write-at;
  commit_ok = λ w d h. refl;
  commit_err = λ {e} w d h. absurd (ok-ne-err e h);
  begin_read-rows = λ d. refl;
  begin_read-seen = λ d r h. ok-eq d.table r h;
  open_read_table-seen = ok-eq;
  get-seen = row-eq;
}
