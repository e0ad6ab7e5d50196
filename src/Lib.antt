-- ===== src/Lib.antt =====
-- QuantSimX: a market data and trading simulator in C++. The feed keeps the order book from the
-- exchange's messages; the main loop takes the last price from it, passes it to the indicators and the
-- signal generator, writes every fifth sample to a file and shows it all on the dashboard. The
-- backtester reads such a file into bars and runs the signal generator over them; the parameter sweep
-- compares many backtests, which the thread pool is meant to run at once. The trading engine puts the
-- same parts together behind a buffer of ticks.
--
-- Which file models which part:
-- - OrderBook, with its children: include/OrderBook.h and src/OrderBook.cpp. A side is its array of 256
--   levels and its count. A handler returns the book that it leaves and whether it threw. Ladder is
--   the specification: a list of levels in order, without an array.
-- - Queues: LockFree is include/LockFreeQueue.h, Spsc is SPSCQueue of include/HFT.h, SpscRing is
--   SPSCRingBuffer of include/HFTPerf.h, RingBuffer is that of include/VWAPCalculator.h, TickBuffer
--   is include/TickBuffer.h. Fifo is what they promise. A call is one step, but for LockFree/Threads,
--   in which each access of a producer and of a consumer is one. Memory is sequentially consistent.
-- - Signals: include/Signal.h, include/SignalGenerator.h and src/SignalGenerator.cpp.
-- - Indicators: VWAPCalculator of include/VWAPCalculator.h and src/VWAPCalculator.cpp.
-- - Algorithms, a file for each class: include/TradingAlgorithms.h and src/TradingAlgorithms.cpp. An
--   object behind a pointer to the base class is a value of the sum in Algorithms/Registry.
-- - Backtester: include/Backtester.h and src/Backtester.cpp. Csv is load_csv, Metrics the figures.
-- - ThreadPool: include/ThreadPool.h and src/ThreadPool.cpp, as a step relation in which each access
--   of a worker to the pool is a step.
-- - Trades: include/TradeTracker.h and src/TradeTracker.cpp.
-- - Feed: src/BinanceWebSocketClient.cpp with its header, and the simulator of src/NetworkClient.cpp.
-- - Rest: src/BinanceRESTClient.cpp, the texts of the request and of the response as lists of codes. How
--   the loop over recv ends (well, by an exception of +=, or never) is part of what the system gives.
-- - Udp: ZeroCopyUDP of include/HFTPerf.h and ZeroCopyUDPSocket of include/HFT.h.
-- - Engine: include/TradingEngine.h and src/TradingEngine.cpp. A method returns the engine it leaves.
--   The member tick_buffer_, which is declared nowhere, is a parameter.
-- - Session: main of src/main.cpp. A round of its loop is a function of a frame, which holds what comes
--   from outside; the end by std::terminate is an outcome of its own.
-- - Config, Risk, Sweep: include/Config.h; include/RiskManager.h; include/ParameterSweep.h and
--   src/ParameterSweep.cpp.
-- - Dashboard: include/DashboardUI.h and src/DashboardUI.cpp; Panels has the texts that are shown. Figures,
--   with Drawdown, and Active are DASHBOARD_INTEGRATION_EXAMPLES.cpp.
-- - FlatHash, BitBook and Cores: FlatHashFreeArray, BitScanningOrderBook and CPUPinner of include/HFT.h.
-- - PackedBook: PackedOrder and BitmaskOrderBook of include/HFTPerf.h.
-- - SymbolIndex, Profiler: include/SymbolIndex.h, include/LatencyProfiler.h.
-- - Output: include/CSVWriter.h and include/Logger.h with their sources.
--
-- A double is a type with operations (Double); the laws of its comparisons, which IEEE numbers
-- satisfy, NaN included, are the record IsOrdered and a hypothesis where they are needed. JSON values
-- and the conversions of the standard library are the record Json, or arguments. Double/Fixed and
-- Json/Document are concrete instances; Values are concrete states that the tests share. 64-bit
-- counters wrap as in the source (Prelude/Words), and signed overflow is none (Risk). Two functions run
-- on fuel: clear of LockFree and process_pending_ticks of Engine. Their theorems say how much is
-- enough: more than the entries that wait. The sums of counts that stay below 2^64 in every run are
-- written without the wrap-around.
--
-- Not modelled: the charts of the dashboard, which are drawn in single precision, its style and its
-- window; the options of TLS and of the sockets; the memory orderings that are weaker than sequential
-- consistency. What the calls of the operating system give is an argument.
pub mod Algorithms
pub mod Backtester
pub mod BitBook
pub mod Config
pub mod Cores
pub mod Dashboard
pub mod Double
pub mod Engine
pub mod Feed
pub mod FlatHash
pub mod Indicators
pub mod Json
pub mod OrderBook
pub mod Output
pub mod PackedBook
pub mod Prelude
pub mod Profiler
pub mod Queues
pub mod Rest
pub mod Risk
pub mod Session
pub mod Signals
pub mod Sweep
pub mod SymbolIndex
pub mod ThreadPool
pub mod Trades
pub mod Udp
pub mod Values
