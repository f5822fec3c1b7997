-- ===== src/Lib.antt =====
-- Verification library of lemuel-quant-core: models of the C++ modules and theorems about them.
--
-- The program is a set of services that share text formats and two databases. The judge engine
-- (modules/judge-engine) compiles a submission, runs it once for each case in a sandbox and compares
-- the outputs; a gRPC service and a command line call it. The stock feed (modules/stock-feed) follows the
-- KRX session, reads trades and order books from the KIS web socket and publishes them as JSON; the
-- market feed (modules/market-feed) does so for Binance. The data warehouse (modules/data-warehouse) reads
-- the publications back, keeps rows by channel and writes them out window by window. The disclosure
-- crawler (modules/dart-crawler) polls a list and stores what is new; the news pipeline
-- (modules/news-pipeline) reads feeds, classifies articles and keeps a decaying score for each ticker.
--
-- Base        shared names; Split the delimiter loop of kis_client.cpp, Join what puts its pieces together,
--             Find and After searches in texts, Maps a map of lists
-- Judge       the records of judge/sandbox.hpp and judge/runner.hpp, to_string
--   Sandbox   Sandbox::run of src/sandbox.cpp in its two builds: run_linux, run_portable; Child is the
--             child behind the fork, Pipes the parent and the program at the two ends of the pipes
--   Linux     src/sandbox_linux.cpp: create_cgroup, apply_rlimits, install_seccomp_whitelist and others
--   Runner    normalize, compile_via_execv and Runner::judge of src/runner.cpp; Token is make_run_id
--   Service   grpc/server.cpp (from_pb, Submit, Stream) and src/main.cpp (cli_main)
-- Http        the transfers by libcurl of stock-feed, dart-crawler and news-pipeline
-- Feed        shared/include/lqc/feed_core.hpp; Lifecycle start, stop, destructor and failure of a client as
--             calls that take place at once, Threads the same as moves of two threads, Reading their loop,
--             Redis the publishers of market-feed and stock-feed over their connection
-- Stock       Session is src/krx_session.cpp, Kis is src/kis_client.cpp with one round of its run_loop
--             in Kis/Connection, Supervise and Main are src/main.cpp
-- Market      Streams, Frames, Messages and Connection are src/binance_client.cpp, Publisher is
--             src/redis_publisher.cpp, Main is src/main.cpp
-- Dart        Store and Postgres are the two stores of src/disclosure_store.cpp, List and Poll are list and
--             poll_loop of src/dart_client.cpp, Main is src/main.cpp
-- Dwh         Store is src/timeseries_store.cpp, with the promise of its interface in Store/Bags, Rollup
--             is src/rollup.cpp, with the upload of src/r2_uploader.cpp in Rollup/Files and
--             Rollup/Upload, Ingest, Loop and Settings are src/main.cpp, Writer is
--             src/parquet_writer.cpp, Subscriber is src/redis_subscriber.cpp, round by round and, in
--             Subscriber/Threads, move by move; Subscriber/Exchange and Subscriber/Broker put the
--             market feed and the stock feed in front of it
-- News        Tokens is src/finbert.cpp, Score is src/news_score.cpp, Rss is src/rss_crawler.cpp, Tagger is
--             src/ner.cpp, Sentiment is src/sentiment.cpp with news/finbert.hpp, Cycle is src/main.cpp
-- Tests       concrete inputs
--
-- Conventions. Text is a list of bytes. What the operating system, a library or a server answers is an
-- argument: the record Os of a sandbox run, JudgeOs of a call of judge, the functions for file
-- operations, transfers and sorting. What the code asks of them, where that matters, is a list of actions
-- beside the result. A `double` is a type with the operations that the code uses (Double, Weight, Likelihood).
-- An exception is `none`. Times and sizes are natural numbers; a cast to 32 bits keeps its wrap-around. A
-- signed integer of the exchange is one that is not negative.
-- A method that holds a lock is one step. Where threads or processes meet without one, in Feed/Threads,
-- Dwh/Subscriber/Threads and Judge/Sandbox/Pipes, each access is a move, and orders are lists of moves.
--
-- Fuel. The loop of Base/Split counts its rounds as the source does. `encode_loop`, `items_loop` and the
-- `scan` of the tagger run on fuel: each round of the first takes a byte of the text, each of the second
-- moves behind the end tag that it found and each of the third behind the alias that it found, so the
-- length of the text, and a little more, is the fuel that they get (`scan_enough` of News/Tagger/Scan). `play`
-- of Judge/Sandbox/Pipes makes as many moves as it is given; `play-initial` gives it enough.
--
-- Not modelled: the network and Redis below these steps, the logs, the parsers and formats of libraries
-- (simdjson, libcurl, libpqxx, Boost, Arrow, ONNX Runtime, the AWS SDK) and the parts of the
-- repository in other languages.
pub mod Base
pub mod Judge
pub mod Http
pub mod Feed
pub mod Stock
pub mod Market
pub mod Dart
pub mod Dwh
pub mod News
mod Tests
