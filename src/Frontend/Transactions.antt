-- ===== src/Frontend/Transactions.antt =====
-- Transactions: src/frontend/src/api/transaction/transactions.ts, the counts of
-- components/charts/TransactionsCharts.tsx and the renaming of components/TransactionsTable.tsx.
-- Dates (luxon) and the HTTP client are parameters. The table writes the name into the shared
-- object, so what it returns is also what the next rendering starts from.
pub mod Laws
use mathlib.Core.List.{foldl}
use easytrade.Base.{ℕ, suc, ◌+◌, String, Bool, false, Option, none, some, List, [], ◌∷◌, map, find}
use easytrade.Base.{◌==◌, Eq, string_eq, ltb, if◌then◌else◌}
use easytrade.Base.Dict
use easytrade.Base.Dict.{Dict}
use easytrade.Base.Text.{codes, to_lower, index_of}
use easytrade.Base.Result.{Result, ok, err}

-- The fields of the backend's transactions that the mapping reads.
pub record RawTransaction (N : Type 0) : Type 0 where
  pub instrument_id : String
  pub direction : String
  pub quantity : N
  pub entry_price : N
  pub timestamp_close : String
  pub status : String

pub record Transaction (N : Type 0) : Type 0 where
  pub id : ℕ
  pub action_type : String
  pub instrument_name : String
  pub amount : N
  pub price : N
  pub status : String
  pub end_time : String

-- `s.toLowerCase().indexOf(needle) > 0`
unfoldable pub inside : String → String → Bool
inside s needle = elim (index_of (to_lower (codes s)) (codes needle)) [
  | none ↦ false
  | some i ↦ ltb 0 i
]

unfoldable pub map_status : String → String
unfolding inside
map_status status =
    if inside status "finished"
    then "SUCCESS"
    else if inside status "failed"
    then "FAIL"
    else "ACTIVE"

unfoldable pub map_direction : String → String
unfolding inside
map_direction direction = if inside direction "buy" then "BUY" else "SELL"

module _ {N : Type 0} (to_iso : String → Option String) where
  unfoldable pub map_raw_transaction : RawTransaction N → ℕ → Transaction N
  unfolding map_status map_direction
  map_raw_transaction raw index = record {
    id = index;
    action_type = map_direction raw.direction;
    instrument_name = raw.instrument_id;
    amount = raw.quantity;
    price = raw.entry_price;
    status = map_status raw.status;
    end_time = elim (to_iso raw.timestamp_close) [ none ↦ raw.timestamp_close | some time ↦ time ];
  }

  -- `results.map(mapRawTransaction)`, from an index on
  unfoldable pub map_from : ℕ → List (RawTransaction N) → List (Transaction N)
  unfolding map_raw_transaction
  map_from i [] = []
  map_from i (raw ∷ raws) = map_raw_transaction raw i ∷ map_from (suc i) raws

  unfoldable pub get_transactions :
      {E : Type 0} → Result E (List (RawTransaction N)) → List (Transaction N)
  unfolding map_from
  get_transactions (ok results) = map_from 0 results
  get_transactions (err e) = []

-- `map.get(key) ?? 0`
abbrev pub counted : {K : Type 0} ⦃e : Eq K⦄ → K → Dict K ℕ → ℕ
counted key m = elim (Dict.lookup key m) [ none ↦ 0 | some value ↦ value ]

-- One turn of the loop of `getTransactionsData`.
unfoldable pub count_one : {K : Type 0} ⦃e : Eq K⦄ → Dict K ℕ → K → Dict K ℕ
count_one m key = Dict.insert key (counted key m + 1) m

-- `getTransactionsData`, for the property that `property` reads
unfoldable pub get_transactions_data :
    {K N : Type 0} ⦃e : Eq K⦄ → List (Transaction N) → (Transaction N → K) → Dict K ℕ
unfolding count_one
get_transactions_data transactions property = foldl count_one [] (map property transactions)

-- The fields of an instrument that the table reads.
pub record Instrument : Type 0 where
  pub id : String
  pub name : String

-- What the table shows for the name of a transaction's instrument.
unfoldable pub shown_name : List Instrument → String → String
shown_name instruments name = elim (find (λ x. x.id == name) instruments) [
  | none ↦ name
  | some instrument ↦ instrument.name
]

unfoldable pub rename : {N : Type 0} → List Instrument → Transaction N → Transaction N
unfolding shown_name
rename instruments t = record t { instrument_name = shown_name instruments t.instrument_name }

-- The rows of `TransactionsTable`, which are also its transactions from then on.
unfoldable pub transactions_table :
    {N : Type 0} → List Instrument → List (Transaction N) → List (Transaction N)
unfolding rename
transactions_table instruments transactions = map (rename instruments) transactions
