-- ===== src/Link/Tests.antt =====
-- What passes between the services at concrete inputs.
use avito_kitchen.Base.{◌≡◌, refl, true, none, [], ◌∷◌, codes, Text_discrete, ℕ_discrete}
use avito_kitchen.Link.Decision.{
  sent_decision, same_decision, fits_job, read_decision-sent_decision,
}
use avito_kitchen.Link.Menu.{sent_menu, same_menu, is_allowed_menu, snapshot_of-sent_menu}
use avito_kitchen.Platform.Client.{body, read_decision}
use avito_kitchen.Platform.Domain.{OutboxJob}
use avito_kitchen.Platform.Http.Requests.{snapshot_of}
use avito_kitchen.Platform.Store.{confirm_order, empty_object}
use avito_kitchen.Shared.Strings.{valid_required_text, valid_optional_text, valid_currency}
use avito_kitchen.Shared.Transaction.{ok}
use avito_kitchen.Venue.Client.{menu_request}
use avito_kitchen.Venue.Http.{decision_dto}
use avito_kitchen.Venue.Menu.{MenuSnapshot}
use avito_kitchen.Venue.Store.{OrderDecision}

abbrev menu : MenuSnapshot
menu = record {
  version = 3;
  categories =
      record {
        external_id = codes "soups";
        name = codes "Soups";
        items =
            record {
              external_id = codes "s1";
              name = codes "Borscht";
              description = [];
              price_amount = 25000;
              currency = codes "RUB";
              is_available = true;
            }
            ∷ [];
      }
      ∷ [];
}

allowed_menu : is_allowed_menu menu ≡ true
unfolding valid_required_text valid_optional_text valid_currency
allowed_menu = refl

snapshot_of-sent_menu_example : snapshot_of (sent_menu (menu_request menu)) ≡ ok (same_menu menu)
snapshot_of-sent_menu_example = snapshot_of-sent_menu menu allowed_menu

abbrev job : OutboxJob
job = record {
  id = codes "job";
  order_id = codes "order";
  event_type = confirm_order;
  lock_token = codes "token";
  payload = empty_object;
  attempts = 1;
  confirmation_deadline = 500;
  expected_items_amount = 25000;
  currency = codes "RUB";
}

abbrev decision : OrderDecision
decision = record {
  external_order_id = codes "v1";
  reason = none;
  accepted_items_amount = 25000;
  currency = codes "RUB";
  current_menu_version = 0;
  unavailable_item_ids = [];
}

agreed : fits_job (λ t. true) job decision ≡ true
unfolding Text_discrete ℕ_discrete
agreed = refl

read_decision-sent_decision_example :
    read_decision (λ t. true) job (body (sent_decision (decision_dto decision)))
    ≡ ok (same_decision decision)
read_decision-sent_decision_example = read_decision-sent_decision (λ t. true) job decision agreed
