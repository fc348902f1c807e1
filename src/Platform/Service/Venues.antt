-- ===== src/Platform/Service/Venues.antt =====
-- `ListVenues`, `GetVenue` and `GetMenu` of internal/platform/service/service.go.
use avito_kitchen.Base.{Bool, false, ◌||◌, ◌==◌, ltb, none, some, List, Text, codes, if◌then◌else◌}
use avito_kitchen.Platform.Store.{VenueRow, Db, Env, RepoError}
use avito_kitchen.Platform.Catalog.{Venue, VenuePage, Menu, list_venues, get_venue, get_menu}
use avito_kitchen.Platform.Service.{invalid_request, map_repository_error}
use avito_kitchen.Platform.Tokens.{decode_cursor, encode_cursor}
use avito_kitchen.Shared.Errors.{AppError}
use avito_kitchen.Shared.Integers.{ℤ, is_less, is_greater, to_nat}
use avito_kitchen.Shared.Strings.{trim_space, rune_count}
use avito_kitchen.Shared.Transaction.{Result, ok, err, refuse, ◌>>=◌, ◌>>◌}

-- `mapRepositoryError` on the result of a read.
abbrev read : {A : Type 0} → Result RepoError A → Result AppError A
read (err e) = err (map_repository_error e)
read (ok a) = ok a

abbrev is_zero : ℤ → Bool
is_zero (ℤ.pos n) = n == 0
is_zero (ℤ.negsuc n) = false

-- `limit`, 20 where it is 0.
abbrev pub limit_of : ℤ → ℤ
limit_of limit = if is_zero limit then ℤ.pos 20 else limit

-- `(*CatalogService).ListVenues`, with the parameters of the repository's `list_venues`.
unfoldable pub venue_page :
    Env
    → (Text → Text → Bool)
    → (Text → VenueRow → Bool)
    → List VenueRow
    → Text
    → Text
    → ℤ
    → Result AppError VenuePage
unfolding rune_count trim_space decode_cursor encode_cursor list_venues map_repository_error
venue_page env above matches rows search cursor limit = do
  refuse
      (is_less (limit_of limit) 1 || is_greater (limit_of limit) 100 || ltb 200 (rune_count search))
      (invalid_request (codes "catalog query is invalid"))
  after_id ← elim (decode_cursor cursor) [
    | none ↦ err (invalid_request (codes "cursor is invalid"))
    | some id ↦ ok id
  ]
  page ← read (
      list_venues env above matches
        (record {
          search = trim_space search;
          after_id = after_id;
          limit = to_nat (limit_of limit);
        })
        rows)
  ok (record page { next_cursor = encode_cursor page.next_cursor })

-- `(*CatalogService).GetVenue`.
unfoldable pub venue_by_id : Env → Db → Text → Result AppError Venue
unfolding get_venue map_repository_error
venue_by_id env db venue_id = read (get_venue env db venue_id)

-- `(*CatalogService).GetMenu`.
unfoldable pub menu_by_id : Env → Db → Text → Result AppError Menu
unfolding get_menu map_repository_error
menu_by_id env db venue_id = read (get_menu env db venue_id)
