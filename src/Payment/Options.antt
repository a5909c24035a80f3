-- ===== src/Payment/Options.antt =====
-- The payment options: issuer-node/internal/repositories/payment.go and the operations of
-- issuer-node/internal/core/services/payment.go on them. Two options of an issuer with one name,
-- or an issuer that is not there, are faults of the database.
use e_native_issuer.Common.{
  ℕ, String, Bool, not, ◌&&◌, Option, none, some, List, [], ◌∷◌, any, keep, find, str_eq, ◌==◌,
  if◌then◌else◌, sort_desc, Result, ok, err, or_err,
}
use e_native_issuer.Payment.{
  ConfigItem, PaymentOption, Db, Error, payment_option_not_found, option_is_referenced,
}
use e_native_issuer.Payment.Requests.{unless_set}

-- ON CONFLICT (id) DO UPDATE SET name, description, configuration, updated_at
abbrev pub overwritten : ℕ → PaymentOption → PaymentOption → PaymentOption
overwritten now new old = record old {
  name = new.name;
  description = new.description;
  config = new.config;
  updated_at = now;
}

unfoldable pub upsert_option : ℕ → PaymentOption → List PaymentOption → List PaymentOption
upsert_option now new [] = new ∷ []
upsert_option now new (o ∷ options) =
    if o.id == new.id then overwritten now new o ∷ options else o ∷ upsert_option now new options

-- SavePaymentOption
unfoldable pub save_payment_option : Option Error → ℕ → PaymentOption → Db → Result Error ℕ × Db
save_payment_option (some e) now o db = (err e, db)
save_payment_option none now o db =
    (ok o.id, record db { options = upsert_option now o db.options })

-- GetAllPaymentOptions, newest first
unfoldable pub get_all_payment_options :
    Option Error → String → Db → Result Error (List PaymentOption)
get_all_payment_options (some e) issuer db = err e
get_all_payment_options none issuer db =
    ok (sort_desc (λ o. o.created_at) (keep (λ o. str_eq o.issuer_did issuer) db.options))

abbrev pub is_option : Option String → ℕ → PaymentOption → Bool
is_option issuer id o = (o.id == id) && unless_set issuer (λ i. str_eq o.issuer_did i)

-- GetPaymentOptionByID, for any issuer where none is given
unfoldable pub get_payment_option_by_id :
    Option Error → Option String → ℕ → Db → Result Error PaymentOption
get_payment_option_by_id (some e) issuer id db = err e
get_payment_option_by_id none issuer id db =
    or_err (find (is_option issuer id) db.options) payment_option_not_found

-- DeletePaymentOption. A payment request that names the option holds it.
unfoldable pub delete_payment_option : Option Error → String → ℕ → Db → Result Error (Unit {0}) × Db
delete_payment_option (some e) issuer id db = (err e, db)
delete_payment_option none issuer id db =
    if any (is_option (some issuer) id) db.options
    then (if any (λ r. r.payment_option_id == id) db.requests
        then (err option_is_referenced, db)
        else (
          ok tt,
          record db { options = keep (λ o. not (is_option (some issuer) id o)) db.options },
        ))
    else (err payment_option_not_found, db)

-- NewPaymentOption
unfoldable pub new_payment_option :
    ℕ → ℕ → String → String → String → List ConfigItem → PaymentOption
new_payment_option id now issuer name description config = record {
  id = id;
  issuer_did = issuer;
  name = name;
  description = description;
  config = config;
  created_at = now;
  updated_at = now;
}

-- CreatePaymentOption
unfoldable pub create_payment_option :
    Option Error → ℕ → ℕ → String → String → String → List ConfigItem → Db → Result Error ℕ × Db
create_payment_option fault id now issuer name description config db =
    save_payment_option fault now (new_payment_option id now issuer name description config) db

-- An argument that is there replaces the field.
abbrev pub given {ℓ} : {A : Type ℓ} → Option A → A → A
given none old = old
given (some new) old = new

-- UpdatePaymentOption
unfoldable pub update_payment_option :
    Option Error
    → Option Error
    → ℕ
    → String
    → ℕ
    → Option String
    → Option String
    → Option (List ConfigItem)
    → Db
    → Result Error ℕ × Db
update_payment_option read_fault fault now issuer id name description config db =
    elim (get_payment_option_by_id read_fault (some issuer) id db) [
      | err e ↦ (err e, db)
      | ok o ↦
          save_payment_option fault now
            (record o {
              name = given name o.name;
              description = given description o.description;
              config = given config o.config;
            })
            db
    ]
