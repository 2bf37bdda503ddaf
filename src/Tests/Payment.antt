-- ===== src/Tests/Payment.antt =====
-- A payment command for 19.99.
use node_with_aoth.Prelude.{◌≡◌, refl, ◌≢◌, String, true, false, some, [], ◌∷◌, ◌++◌}
use node_with_aoth.Database.Action.{ok}
use node_with_aoth.Database.Columns.{Cents, to_cents, is_uuid}
use node_with_aoth.Database.Transaction.{no_faults}
use node_with_aoth.Shared.{number_le}
use node_with_aoth.Payments.Handler.{Attempt, find_attempt, handle_payment_command}
use node_with_aoth.Payments.Settlement.{verdict, answer, handle_payment_command-settles}
use node_with_aoth.Tests.Samples.{
  first_id, ids, price, payment_request, payment_message, no_payments,
}

abbrev price_cents : Cents
price_cents = record { negative = false; hundredths = 1999 }

price_fits : to_cents price ≡ ok price_cents
unfolding to_cents
price_fits = refl

first_is_uuid : is_uuid first_id ≡ true
unfolding is_uuid
first_is_uuid = refl

handle_payment_command-settles_example :
    let t = (handle_payment_command no_faults ids payment_message payment_request no_payments).1 in
    ((handle_payment_command no_faults ids payment_message payment_request no_payments).0 ≡ ok tt)
    × ((x : Attempt) × (find_attempt first_id t.store ≡ some x)
        × (x.status ≡ verdict (number_le price 10000)))
    × ((j : String) → j ≢ first_id → find_attempt j t.store ≡ find_attempt j no_payments.store)
    × (t.outbox ≡ no_payments.outbox ++ answer ids first_id (number_le price 10000) ∷ [])
handle_payment_command-settles_example =
    handle_payment_command-settles ids payment_request no_payments first_id "USD" price price_cents
      refl refl refl price_fits first_is_uuid payment_message "e3" refl (λ e. cc) refl refl
