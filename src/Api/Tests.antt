-- ===== src/Api/Tests.antt =====
-- Requests to a server in memory, with the accounts of Auth/Tests and the rooms of Room/Tests.
use zombiies_api.Common.{ℕ, ◌≡◌, List, [], ◌∷◌, filter}
use zombiies_api.User.Model.{User}
use zombiies_api.Ether.{Transfer}
use zombiies_api.Match.Model.{Match}
use zombiies_api.Room.Model.{Room}
use zombiies_api.Auth.Accounts
use zombiies_api.Auth.Accounts.{docs_of, signs_up, logs_in}
use zombiies_api.Auth.Accounts.Distinct.{Unique, is_admin}
use zombiies_api.Auth.Tests as Users
use zombiies_api.Room.Service.Calls
use zombiies_api.Room.Service.Calls.{ServerOk}
use zombiies_api.Room.Tests as Rooms
use zombiies_api.Api.Requests.{
  Request, asks, accounts, room_job, match_job, finds_match, puts_card, gives_up, Server, serve_all,
  game_calls, serve_all-calls, serve_all-ServerOk,
}
use zombiies_api.Common.{ok, err, unauthorized, is_ok, true, false, some, ◌⊎◌}
use zombiies_api.Common.{refl}
use zombiies_api.Common.Memory.{memory}
use zombiies_api.Card.Schema.{Card}
use zombiies_api.Card.Service as CardService
use zombiies_api.Card.Tests as Cards
use zombiies_api.Deck.Model.{Deck}
use zombiies_api.Deck.Service.{World}
use zombiies_api.Api.Decks.{add_card_to_deck}
use zombiies_api.Api.Decks.Owned.{owner_answer, add_card_to_deck-owned}
use zombiies_api.Auction.Tests as Auctions
use zombiies_api.Notification.Tests.{notes}
use zombiies_api.User.Model as UserModel
use zombiies_api.Api.Notifications.Unread as Unread
use zombiies_api.Api.Notifications.Unread.{all_unread_after, unread, serve_all-unread}

abbrev server :
    Server (List User) (List Transfer) (List Room) (List (ℕ × ℕ)) (List Match) (List (ℕ × ℕ)) ℕ
server = record { account_world = Users.nobody; game = Rooms.world }

-- A token of nobody, 8, and then the first user's one, 1.
abbrev requests : List Request
requests =
    asks 8 1 finds_match
    ∷ accounts (signs_up Users.alice 2)
    ∷ asks 1 3 finds_match
    ∷ asks 1 4 (puts_card 3 2)
    ∷ room_job 2
    ∷ match_job 1
    ∷ asks 8 5 gives_up
    ∷ []

serve_all-calls_example :
    ((serve_all Users.env Rooms.env requests server).game
      ≡ Calls.after_calls Rooms.env
          (game_calls Users.env Rooms.env requests Users.nobody)
          Rooms.world)
    × ((serve_all Users.env Rooms.env requests server).account_world
        ≡ Accounts.after_calls Users.env (signs_up Users.alice 2 ∷ []) Users.nobody)
serve_all-calls_example = serve_all-calls Users.env Rooms.env requests server

serve_all-ServerOk_example :
    let after = serve_all Users.env Rooms.env requests server in
    ServerOk Rooms.env after.game
    × Unique Users.env (docs_of Users.env after.account_world)
    × (filter (is_admin Users.env) (docs_of Users.env after.account_world) ≡ [])
serve_all-ServerOk_example =
    serve_all-ServerOk Users.env Rooms.env requests server Rooms.world-ServerOk tt

abbrev deck : Deck
deck = record { id = 1; name = 5; owner = some 5; deck_cards = [] }

abbrev same_id : (d : Deck) → d.id ≡ d.id
same_id d = refl

abbrev deck_world : World (List Deck) (CardService.World (List Card) (List User) (List Transfer))
deck_world = record { decks = deck ∷ []; others = Cards.world }

add_card_to_deck-owned_example :
    let out =
      add_card_to_deck Cards.env
        (memory (λ d. d.id))
        same_id
        (λ n. n)
        (ok Cards.alice)
        1
        30
        deck_world in
    ((is_ok out.0 ≡ false) × (out.1.decks ≡ deck_world.decks))
    ⊎ ((user : User) × (ok Cards.alice ≡ ok user)
        × (owner_answer Cards.env user 30 Cards.world ≡ ok true))
add_card_to_deck-owned_example =
    add_card_to_deck-owned Cards.env (memory (λ d. d.id)) same_id (λ n. n) (ok Cards.alice) 1 30
      deck_world

-- User 5 as an administrator, and the requests of that user, of user 5 without the role and of nobody.
abbrev administrator : User
administrator = record Cards.alice { role = UserModel.admin }

abbrev notification_requests : List Unread.Request
notification_requests =
    Unread.pushes (ok administrator)
    ∷ Unread.marks (ok administrator)
    ∷ Unread.pushes (ok Cards.alice)
    ∷ Unread.pushes (ok administrator)
    ∷ Unread.pushes (err (unauthorized "Unauthorized"))
    ∷ Unread.lists (ok Cards.alice)
    ∷ Unread.pushes (ok administrator)
    ∷ []

serve_all-unread_example :
    unread Auctions.env 5 (
      Unread.serve_all Auctions.env notification_requests
        (record Auctions.world { notifications = notes }))
    ≡ 2
serve_all-unread_example =
    serve_all-unread Auctions.env 5 notification_requests
      (record Auctions.world { notifications = notes })
