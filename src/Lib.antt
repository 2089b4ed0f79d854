-- ===== src/Lib.antt =====
-- SwiftBot: the state that its services keep, and the decisions that they take on it.
--
-- The program is a set of services that talk over a WAMP router. The orderbooks proxy receives the
-- books of the exchanges and sends them on. A window compares the asks of one market with the bids of
-- another one and offers its pair candidates. The orders manager of the bot reserves balances for the
-- candidates and places two orders for each; a pair of coins does the same for the candidates of its
-- own windows, one at a time. The orders worker and its successor, the order worker, keep all orders in
-- one store, from the events and from the answers of the exchanges. The balance worker and the balances
-- worker keep balances, deposits and withdrawals; the balances worker also keeps the reserves that the
-- orders manager asks for. Each exchange has a client, which gives the calls numbers and queues the
-- requests and the results, or an emulator in its place. All ask one storage of assets for names.
--
-- Files and sources:
--   Orders.Order, Orders.Index, Orders.Store, Orders.Query: swift-lib/ordersstorage.cpp and
--     ordersstorage.h. `Store` is the class `OrdersStorage`; `add_order`, `update_order`, `get_order`,
--     `provision` and the queries are its methods, and `prepare_order_data` is `prepareOrderData`.
--   Workers.OrdersWorker: workers/ordersworker.cpp, its events and `checkState`.
--   Workers.BalanceWorker: workers/balanceworker.cpp and balanceworker.h. Below it stand Requests (the
--     queues), Rpc (the calls that list transactions), Load (the constructor) and Rates
--     (`updateRates`).
--   Workers.BalancesWorker: workers/balancesworker.cpp and balancesworker.h. `Worker` is the class;
--     `on_update_event` is `onUpdateEvent` and `calculate_summaries` is `calculateSummaries`. Below it
--     stand Reserve (the calls on the reserves), Ledger (the same calls on functions of the currency),
--     Events (all that reaches the worker), History (deposits and withdrawals), Statuses (the requests
--     of the timers), Rates, Reports and Addresses.
--   Workers.OrderWorker: workers/orderworker.cpp and orderworker.h, the messages and calls; Timers has
--     the queues and the timers, as steps of a run.
--   Rpc.AsyncCaller: swift-lib/asyncrcpcallerinterface.cpp. Rpc.SwiftEvent: swift-lib/systemevent.cpp.
--   Bot.OrdersManager: swift-bot/ordersmanager.cpp. `on_candidats` is `onCandidats`, a run over the
--     candidates; `Round` is what its loop changes.
--   Window.Orderbook, Window.ArbitrageWindow: swift-lib/arbitragewindow.cpp, the structs of the order
--     books and the class; Profit has its profits and sizes.
--   Window.ArbitragePair: swift-lib/arbitragepair.cpp and arbitragepair.h; `check_candidats` is
--     `checkCandidats`. Window.OrderParams: swift-lib/orderparams.cpp.
--   Window.ArbitrageManager: swift-lib/arbitragemanager.cpp; `link_order` takes what a pair links, and
--     the file of the links is a value. Bot.Order: swift-bot/order.cpp, with the answer of the exchange
--     and the inserted transactions as parameters.
--   Bot.MoneyShiftManager: swift-bot/moneyshiftmanager.cpp; the rows of the query are a value.
--   Proxy.NodesController: swift-orderbooks-proxy/nodescontroller.cpp. Proxy.OrderbooksNode:
--     swift-orderbooks-proxy/orderbooksnode.cpp; `on_raw_orderbooks` is `onRawOrderbooks` and
--     `rebuild_indexes` is `rebuildIndexes`; Feeds has the answers and messages of the exchanges.
--   Api.Client: swift-lib/swiftapiclient.cpp and swiftapiclient.h, the client that each exchange derives.
--     Responses has `onApiResponseParsed`, Results the sending of results, Replies `onNetworkReply`, Run all
--     of it as steps. Api.Emulator: swift-arbitrage-api-node/apiemulator.cpp, a made-up exchange.
--   Assets: swift-lib/assetsstorage.cpp. `Assets` is `AssetsStorageData`, Load has `loadAssets` from the rows of
--     its queries, Prices `calculatateTransferPrice`.
--   Qt: the maps, lists and JSON objects of Qt that the sources use. Double: the type `double`.
--   Prelude: names and lemmas that all share. Tests: the theorems at concrete inputs.
--
-- How the code is modelled:
--   An operation is a function from the state to the state, with the calls that it makes of the
--   session as a list of values, in their order. The conversions of Qt, the clock, the assets, the
--   settings and the answers of the database and of other services are fields of a record `Env`; what
--   a theorem needs of them is a named hypothesis. Undefined behaviour, such as a write out of range,
--   is the result `none`.
--   `double` is any type with the operations; NaN is allowed. A theorem that needs an order asks for
--   `IsDouble`, which whole numbers meet.
--   A map is a list of entries in the order of iteration. `QHash` is given the order of its keys,
--   which the program does not promise; no result below states it, but those on the tables of the
--   balances worker ask that the model's list of items has it, so that each key stands once. A JSON
--   value is a text, or a raw value that only equality tells apart. Times and counters in `quint64`
--   and `quint32` wrap around. `getOpenOrders` is undefined where it erases from the map that it
--   walks. While `session->call` waits for a pair, it handles what arrives; that is any function of
--   the pair. The calls of the orders manager are taken to return before any event is handled. The
--   loop over the sizes of an order in `calculateOrderbooks` runs on fuel, which is enough where as
--   many steps take the smallest size to the largest.
--
--   A timer that runs once and sets another is a step that takes one pending timer, in any order. The
--   results that reach a waiting call in time are a list. The sums of `updateRatesCache`, which the code
--   keeps as `int`, are natural numbers, since rates are not below 0; where one is out of range the
--   result is `none`.
--
-- Not modelled: the connections, threads, mutexes and the clocks of timers, the single exchanges
-- and their parsers, the feed of idcm, the settings and logs, the writing of rows except for its
-- success, and the printing of JSON for the user, nor the queries that only print rows. The filter
-- of candidates in swift-bot is left out, since nothing calls it. The profit by which
-- `createOrdersQueue` sorts is a parameter, and so is the order that it leaves; the code behind its
-- first `return` never runs. The mode of the system is a setting, not the answer of a call of the
-- timer.
pub mod Prelude
pub mod Qt
pub mod Double
pub mod Orders
pub mod Workers
pub mod Bot
pub mod Window
pub mod Proxy
pub mod Rpc
pub mod Api
pub mod Assets
pub mod Tests
