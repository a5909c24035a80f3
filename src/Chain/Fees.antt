-- ===== src/Chain/Fees.antt =====
-- What a transaction pays: getGasPrice, suggestGasTipCap, CallAuth, CreateTxOpts and CreateRawTx of
-- issuer-node/internal/eth/client.go.
use e_native_issuer.Common.{
  ℕ, ◌+◌, ◌*◌, ◌/◌, Bool, true, false, ◌==◌, not, Option, none, some, List, [], ◌∷◌, ltb,
  if◌then◌else◌, Result, ok, err, ◌>>=◌,
}
use e_native_issuer.Chain.{ClientConfig, Error, private_key_nil, tip_not_supported, underpriced}

-- A price that is configured: not nil and above zero
abbrev pub bound : Option ℕ → Option ℕ
bound none = none
bound (some p) = if ltb 0 p then some p else none

-- MinGasPrice and MaxGasPrice are the same price above zero.
abbrev pub forced : Option ℕ → Option ℕ → Option ℕ
forced min none = none
forced min (some max) = elim (bound min) [
  | none ↦ none
  | some p ↦ if p == max then some max else none
]

abbrev pub raised : Option ℕ → ℕ → ℕ
raised none p = p
raised (some low) p = if ltb p low then low else p

abbrev pub lowered : Option ℕ → ℕ → ℕ
lowered none p = p
lowered (some high) p = if ltb high p then high else p

-- getGasPrice, for what SuggestGasPrice answers
unfoldable pub get_gas_price : ClientConfig → Result Error ℕ → Result Error ℕ
get_gas_price config suggested = elim (forced config.min_gas_price config.max_gas_price) [
  | some price ↦ ok price
  | none ↦ do
    price ← suggested
    ok (
        lowered (bound config.max_gas_price)
          (raised (bound config.min_gas_price) (price + price / 10)))
]

-- suggestGasTipCap: a node that does not know the call gives zero.
unfoldable pub suggest_gas_tip_cap : Result Error ℕ → Result Error ℕ
suggest_gas_tip_cap (err tip_not_supported) = ok 0
suggest_gas_tip_cap (err e) = err e
suggest_gas_tip_cap (ok tip) = ok tip

-- bind.TransactOpts, but for the signer
pub record TransactOpts (A : Type 0) : Type 0 where
  pub from : A
  pub gas_price : Option ℕ
  pub gas_limit : ℕ
  pub gas_tip_cap : Option ℕ

-- CreateTxOpts, for the address of the key
unfoldable pub create_tx_opts :
    {A : Type 0}
    → ClientConfig
    → Result Error ℕ
    → Result Error ℕ
    → Result Error A
    → Result Error (TransactOpts A)
create_tx_opts config tip suggested address = do
  from ← address
  if config.gas_less
      then (get_gas_price config suggested >>= λ price. ok (record {
        from = from;
        gas_price = some price;
        gas_limit = config.default_gas_limit;
        gas_tip_cap = none;
      }))
      else (suggest_gas_tip_cap tip >>= λ cap.
          ok (record { from = from; gas_price = none; gas_limit = 0; gas_tip_cap = some cap }))

-- A transaction that the callback of CallAuth makes at a gas limit and a price
abbrev pub Send : Type 0 → Type 0
Send T = ℕ → ℕ → Result Error T

-- strings.Contains(err.Error(), "transaction underpriced")
abbrev pub is_underpriced : Error → Bool
is_underpriced underpriced = true
is_underpriced e = false

-- CallAuth, with the prices at which the callback was called. `gas_limit` is zero for the default.
unfoldable pub call_auth :
    {T : Type 0}
    → ClientConfig
    → Bool
    → Result Error ℕ
    → Result Error (Unit {0})
    → ℕ
    → Send T
    → Result Error T × List ℕ
call_auth config has_key suggested signer gas_limit send =
    if not has_key then (err private_key_nil, []) else elim (get_gas_price config suggested) [
      | err e ↦ (err e, [])
      | ok price ↦ elim signer [
        | err e ↦ (err e, [])
        | ok u ↦
            let limit = if gas_limit == 0 then config.default_gas_limit else gas_limit in
            elim (send limit price) [
              | err e ↦
                  if is_underpriced e
                  then (send limit (price * 30), price ∷ price * 30 ∷ [])
                  else (err e, price ∷ [])
              | ok tx ↦ (ok tx, price ∷ [])
            ]
      ]
    ]

-- TransactionParams, and types.DynamicFeeTx, but for the receiver and the payload
pub record TransactionParams : Type 0 where
  pub base_fee : Option ℕ
  pub gas_tips : Option ℕ
  pub nonce : Option ℕ
  pub value : Option ℕ

pub record DynamicFeeTx : Type 0 where
  pub nonce : ℕ
  pub gas : ℕ
  pub value : ℕ
  pub gas_tip_cap : Option ℕ
  pub gas_fee_cap : Option ℕ

-- What the node answers: PendingNonceAt, EstimateGas, the base fee that eip1559.CalcBaseFee computes
-- from the latest header, and SuggestGasTipCap.
pub record Node : Type 0 where
  pub pending_nonce : Result Error ℕ
  pub estimate_gas : Result Error ℕ
  pub calc_base_fee : Result Error ℕ
  pub gas_tip : Result Error ℕ

abbrev pub or_answer : Option ℕ → Result Error ℕ → Result Error ℕ
or_answer none r = r
or_answer (some n) r = ok n

-- math.Round of the fee times 1.25: exact while five times the fee is below 2 ^ 53.
abbrev pub increased : ℕ → ℕ
increased fee = (5 * fee + 2) / 4

-- The fees of CreateRawTx: the base fee and the tip. The header is read whether it is used or not.
unfoldable pub fees : TransactionParams → Node → Result Error (ℕ × ℕ)
fees params node = do
  base ← node.calc_base_fee
  tip ← or_answer params.gas_tips (suggest_gas_tip_cap node.gas_tip)
  elim params.base_fee [ none ↦ ok (increased base, tip) | some fee ↦ ok (fee, tip) ]

abbrev pub or_zero : Option ℕ → ℕ
or_zero none = 0
or_zero (some n) = n

-- CreateRawTx
unfoldable pub create_raw_tx : ClientConfig → TransactionParams → Node → Result Error DynamicFeeTx
create_raw_tx config params node = do
  nonce ← or_answer params.nonce node.pending_nonce
  if config.gas_less
      then ok (record {
        nonce = nonce;
        gas = config.default_gas_limit;
        value = or_zero params.value;
        gas_tip_cap = none;
        gas_fee_cap = none;
      })
      else (node.estimate_gas >>= λ gas. fees params node >>= λ (base, tip). ok (record {
        nonce = nonce;
        gas = gas;
        value = or_zero params.value;
        gas_tip_cap = some tip;
        gas_fee_cap = some (base + tip);
      }))
