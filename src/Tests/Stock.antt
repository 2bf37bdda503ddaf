-- ===== src/Tests/Stock.antt =====
-- A reservation of two of five books, and its release.
use node_with_aoth.Prelude.{ne_of_test, subst, ◌≡◌, refl, none, some, arith}
use node_with_aoth.Prelude.Int.{pos, ◌-ℤ◌, ◌+ℤ◌}
use node_with_aoth.Shared.{of_nat, Payload}
use node_with_aoth.Messaging.{json-read}
use node_with_aoth.Database.Action.{ok, connection_lost}
use node_with_aoth.Database.Columns.{to_integer, to_uuid, is_uuid}
use node_with_aoth.Database.Transaction.{Faults, no_faults, lost}
use node_with_aoth.Service.Tables.{insert_outbox}
use node_with_aoth.Inventory.Tables.{InventoryDb, find_held, update_stock, hold_reservation}
use node_with_aoth.Inventory.Handler.{reserve_inventory, release_inventory, inventory_consumer}
use node_with_aoth.Inventory.Items.{totals}
use node_with_aoth.Inventory.Conservation.{inventory_consumer-totals}
use node_with_aoth.Inventory.Sound.{IsNonneg, IsSound, inventory_consumer-IsSound}
use node_with_aoth.Inventory.Compensation.{undone, release-reserve}
use node_with_aoth.Tests.Samples.{
  first_id, third_id, ids, shelf, reservation_request, reservation_message, release_request,
}

abbrev lost_commit : Faults
lost_commit = record no_faults { commit = lost connection_lost }

two_fit : to_integer (of_nat 2) ≡ ok (pos 2)
unfolding to_integer
two_fit = refl

-- The schema after the reservation.
abbrev taken : InventoryDb
taken = (reserve_inventory ids reservation_request shelf).1

reserved : reserve_inventory ids reservation_request shelf ≡ (ok tt, taken)
unfolding reserve_inventory update_stock hold_reservation to_uuid is_uuid insert_outbox to_integer
    ◌-ℤ◌ ◌+ℤ◌
reserved = refl

abbrev given_back : InventoryDb
given_back = (release_inventory release_request taken).1

inventory_consumer-totals_example :
    totals (inventory_consumer lost_commit ids reservation_message shelf).1.store.items
    ≡ totals shelf.store.items
inventory_consumer-totals_example =
    inventory_consumer-totals lost_commit ids reservation_message shelf

shelf-IsSound : IsSound shelf.store
shelf-IsSound = record {
  keyed = (refl, (refl, tt));
  available = (omega arith, (omega arith, tt));
  quantities = (omega arith, tt);
}

reservation_request-IsNonneg : IsNonneg reservation_request.quantity
reservation_request-IsNonneg = ground arith

inventory_consumer-IsSound_example :
    IsSound (inventory_consumer lost_commit ids reservation_message shelf).1.store
inventory_consumer-IsSound_example =
    inventory_consumer-IsSound lost_commit ids reservation_message shelf
      (λ p e.
        subst (λ (q : Payload). IsNonneg q.quantity) (json-read _ reservation_request p refl e)
          reservation_request-IsNonneg)
      shelf-IsSound

release-reserve_example :
    let u = undone release_request.order_id shelf taken in
    (release_inventory release_request taken ≡ (ok tt, u))
    × (find_held (some first_id) u.store.reservations ≡ none)
release-reserve_example =
    release-reserve ids reservation_request release_request shelf taken first_id refl refl refl
      reserved ((refl, refl), ((refl, refl), tt)) (ne_of_test third_id first_id refl, tt)
