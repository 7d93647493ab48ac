-- ===== src/Lib.antt =====
-- Zombiies API: the server of a card game on a blockchain, NestJS services over MongoDB
-- collections, bull queues, redis messages and an ERC-721 contract.
--
-- The program's parts and their files. Two users meet in a room (src/module/room); when both are
-- ready the room service removes the room and calls the match service (src/module/match), which
-- reads the players' decks from the deck service (src/module/deck) and plays the match in turns,
-- with a queue job that ends a turn that takes too long. Cards (src/module/card) are bought, won
-- and levelled up as tokens of the contract (src/module/ether-client); tokens are sold in
-- auctions (src/module/auction), which pay through the chain and push notifications
-- (src/module/notification).
--
-- - Common: the shared names. Common.Errors has the exceptions and the state-and-exception monad of
--   the asynchronous methods (`await` is a bind; what was written before an exception stays
--   written), Common.Ports the interfaces of mongoose models, bull queues and random numbers, with
--   the laws that the services rely on; Common.Memory fills them in memory; Common.Documents,
--   Common.Keys and Common.Ensures carry the proofs.
-- - Card.Model: the enumerations and records of src/module/card/enum and src/module/card/model.
-- - Ether, Ether.Wallets: src/module/ether-client/ether-client.service.ts over the interface of
--   ethers. Its `history` is what mined transactions added to the chain; Ether.Memory mines every
--   one.
-- - Card.Schema, Card.Draws, Card.Tokens, Card.Service, Card.Mint: src/module/card/card.service.ts
--   and its schema. Card.Draws is the loop of `getRandomCardsWithRandomValue`, Card.Tokens is
--   `getCardTokensFromToken`, Card.Mint is `mint` and `award`, Card.Service is the other methods.
-- - Card.Receipt: `getTokenIdsFromReceipt` of src/common/util/contract.util.ts.
-- - Deck.Model, Deck.Slots, Deck.Service: src/module/deck/deck.service.ts and its schema.
--   Deck.Slots is what `addCardToDeck` and `removeCardFromDeck` compute from the cards of a deck:
--   sixteen positions, eight for monsters and eight for equipment.
-- - Match.Model, Match.Combat, Match.Hand, Match.Turn, Match.Service:
--   src/module/match/match.service.ts and consumer/match.consumer.ts. Match.Combat is the attacks
--   of `confirmTurn` (`getHPOf`, `subHPOf`, `getTarget`, `canAttack`, `getDame`, `castSkill` and
--   its two loops), Match.Hand is `putToBoard` and `denyCard` on one player's cards, Match.Turn is
--   what every method computes from the two player statuses, and Match.Service is the methods over
--   the collection, the queue and the published messages.
-- - Room.Model, Room.Service: src/module/room/room.service.ts and consumer/room.consumer.ts, over
--   the match service of Match.Service.
-- - Auction.Model, Auction.Env, Auction.Service: src/module/auction/auction.service.ts, with `push`
--   of src/module/notification/notification.service.ts. Auction.Service.Writes is what each method
--   writes.
-- - Notification: the other methods of src/module/notification/notification.service.ts.
-- - Card.Command: src/module/card/command/card.command.ts. Card.Command.Jobs is the parallel jobs
--   of the seeding, whose steps interleave in any order, Card.Command.Chunks their shares, and
--   Card.Command.Jobs.Bag the cards they store as a quotient, which forgets their order.
-- - Card.Seed: `seedToken` of src/common/command/seed.command.ts, with Card.Seed.Copies its inner
--   loop and Card.Seed.Rounds its outer one.
-- - User.Model, User.Service, Auth.Service: src/module/user and src/module/auth; Auth.Accounts is
--   what sign-ups and log-ins do to the users.
-- - Api, Api.Requests: the mutations of src/module/room/room.resolver.ts and
--   src/module/match/match.resolver.ts behind the guard of src/module/auth, over the accounts and
--   the game.
-- - Api.Decks: src/module/deck/deck.resolver.ts, with the card service that the deck service calls.
-- - Api.Tokens: src/module/card/card.resolver.ts and src/module/auction/auction.resolver.ts.
-- - Api.Notifications: src/module/notification/notification.resolver.ts; Api.Notifications.Unread
--   counts what the users have not read.
-- - Api.Subscriptions: the filters of the subscriptions of matches, rooms and notifications.
-- - Filter: src/filter, which turns exceptions into answers, with
--   src/common/util/mongo-error.util.ts; Filter.Texts has `split` and `trim` of texts, which are
--   here lists of code points, and Filter.All the patterns that find the reason of a failed
--   transaction.
-- - Connections: the core modules of src/lib/pub-sub and src/lib/ipfs-storage, which register
--   connections with the injector, with createPubSubConnection and cidToUri.
-- The modules Tests, Plays and Fixture run the services in memory.
--
-- How code is rendered. A method is a function of its arguments and the state to a result or an
-- exception and the new state, and calls run one after another: two requests at the same time are
-- not modelled, but the jobs of the seeding are. Ids, names, addresses and texts are numbers, since
-- the services only compare them, except in Filter and Connections. Skill values, costs, positions and amounts in
-- wei are natural numbers without an upper bound; the seed data has no negative value, and a
-- negative position is taken as position 0. The loops over cards and skills are structural
-- recursion. The draws of random cards go on until a card fits and run on fuel: where some number
-- of draws gives the cards, that much fuel ends the loop. Random draws are numbered in the order of
-- the calls. Published messages and pushed notifications are lists.
--
-- What is a parameter: the document store, the queue, `unionBy` of lodash, random numbers, ethers
-- (transactions, decimal texts of amounts, hexadecimal texts) and date-fns, each with its
-- documented laws; the seeded generator, IPFS, crypto-js, bcrypt, JWT, the injector of NestJS and
-- the contract; and, for decks, matches and auctions, the methods of `CardService` that they call.
-- The writes of the deck, match, room and notification services are taken not to fail; the auction
-- service, which catches a failed write, has a database that may refuse one.
--
-- Not modelled: the modules, src/lib/pub-sub/pub-sub.module.ts and
-- src/lib/ipfs-storage/ipfs-storage.module.ts included, which only name what they import, the rest
-- of src/common, which is one call of a package in each function, src/config, the validators, the
-- dates of notifications, and the generated types of src/module/ether-client/typechain.
pub mod Common
pub mod Card
pub mod Deck
pub mod Match
pub mod Room
pub mod Auction
pub mod Notification
pub mod Ether
pub mod User
pub mod Auth
pub mod Api
pub mod Filter
pub mod Connections
