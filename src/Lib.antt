-- ===== src/Lib.antt =====
-- Verification of Plazza, a pizzeria simulated by a reception process and kitchen processes.
--
-- The reception reads lines of orders, parses them, and places each pizza with a kitchen: a process
-- that it starts when no kitchen has room, and that it talks to over two message queues. A kitchen
-- has a pool of threads, one per cook, that take pizzas from a queue, take the ingredients from a
-- stock that a further thread refills, bake, and send a packet when a pizza is done. The reception
-- logs each pizza that is done, and forgets a kitchen that has announced its end.
--
-- Files, and the code that they model:
--   Errors               src/utils/ErrorMessage.hpp, src/exceptions/Exception.hpp
--   Regex, Regex/        std::regex_match, for the constructs of the pattern of Parser.cpp: a
--                        backtracking matcher, what a match means, and letters in either case
--   Parser, Parser/      src/parser/Parser.cpp: getline, the pattern, parseType, parseSize,
--                        parseNumber, parseLine, parse; Grammar says what a line of orders is
--   Pizza, Pizza/        src/Pizza.hpp, src/pizza/Pizza.cpp, src/pizza/factory/PizzaFactory.cpp
--   Ipc, Ipc/            src/ipc/PizzaSerializer.cpp, the packets of src/ipc/MessageQueue.hpp
--   Ipc/MessageQueue, Ipc/MessageQueue/
--                        src/ipc/MessageQueue.cpp; Fifo is what it promises
--   Reception            src/reception/kitchenHandle/KitchenHandle.hpp and the packet handlers of
--                        src/reception/loadBalancer/LoadBalancer.cpp
--   Reception/LoadBalancer, and its children
--                        dispatch, updateKitchens, spawnKitchen, shutdown, getStatus of
--                        LoadBalancer.cpp; Spawning has the queues of a new kitchen, over the kernel
--                        of Ipc/MessageQueue
--   Kitchen/Ingredient, Kitchen/IngredientStock, Kitchen/StockLaws
--                        src/kitchen/IngredientStock/IngredientStock.cpp
--   Kitchen/Cook         src/kitchen/cook/Cook.cpp
--   Kitchen/ThreadPool, Kitchen/ThreadPool/
--                        src/kitchen/threadPool/ThreadPool.cpp and the parts of cookPizza
--                        between two accesses to shared state, as steps of a thread;
--                        Destruction is the destructor that ThreadPool.hpp leaves to the compiler
--   Kitchen/KitchenWorker, Kitchen/KitchenWorker/
--                        src/kitchen/KitchenWorker.cpp; Steps interleaves its main loop with the threads
--                        of the pool
--   Reception/Link, Reception/Link/
--                        a kitchen and the reception's handle of it, joined by their two queues
--   Shell, Shell/        src/shell/Shell.cpp
--   Main, Main/          src/main.cpp: its callbacks; Main/Arguments, Main/Arguments/ main itself;
--                        Main/Session, Main/Session/ the shell that main runs with its callbacks
--   Display, Display/    src/display/Display.cpp: the text that it prints
--   Logger, Logger/      src/logger/Logger.cpp: the text that it writes
--   Text, Text/          decimal texts, as std::to_string and the streams give them
--   Concurrency, Concurrency/
--                        src/concurrency/: Process and Thread are objects that own a child or a
--                        thread, Mutex has Mutex.cpp and ConditionVariable.cpp, and Places what the
--                        first two share
-- Files called Examples and Tests apply the theorems and the code to concrete values.
--
-- How state, errors and numbers are modelled. A class is a record, a method a function from the
-- record to the record it leaves. An exception is the text of its what(), and a call that throws
-- keeps the state that it leaves, since the handlers of the program go on with that state. A text
-- is a list of bytes; letters and digits are those of the C locale. A std::size_t keeps its
-- arithmetic modulo 2 ^ 64 where it can wrap (the stock, the capacity, the load of a pool), and a
-- byte of a packet its arithmetic modulo 256. The numbers of kitchens and of orders, ints in the
-- code that count up from 0, do not wrap here, and neither does the load that the reception keeps,
-- which the theorems bound by the capacity. Baking times are whole seconds times the multiplier, a
-- double, which is a parameter as are its operations.
--
-- What is not code of the repository is a parameter: to the reception and a kitchen, whether the
-- kernel can start a kitchen or send a packet (the record Os, and `send_error` in a kitchen); to
-- MessageQueue, the System V calls (SysV), with what the manual promises as the laws Delivers,
-- Opens and Spares; to Mutex, the steps of the kernel (Kernel); to Thread, whether pthread_join
-- succeeds; to main, std::stod (Doubles) and the run of the shell, which Main/Session gives; to
-- the callbacks of the shell, the packets that have come in by each call (Feed). Model.antt of
-- Ipc/MessageQueue has a kernel that keeps the laws. The reception and the kitchens see a queue as
-- the list of packets that the calls of `receive` will give; that `receive` can fail is modelled
-- in Ipc/MessageQueue alone. The packets that the reception meets are those that stand in the
-- result queue of a kitchen, and those that come in between two calls and between two rounds of
-- the polling.
--
-- Loops follow their list, but for two. The polling of getStatus has fuel that counts the rounds, and
-- is enough once each kitchen has answered or announced its end by then. The digits of a number have
-- fuel above the number, and a number has no more digits than that. The threads of a kitchen are a
-- relation: any thread may make the next step, and a method that runs under one lock is one step.
--
-- Not modelled: the destructors of Mutex and ConditionVariable, which only call pthread; the clock
-- that src/logger/Logger.cpp reads; the prompt of the shell; methods that only return a field; and
-- the waiting that only costs time. The field `pid` of a handle, which nothing uses, and the
-- multiplier of a cook, which only scales a time asleep, are left out.
pub mod Prelude
pub mod Errors
pub mod Text
pub mod Display
pub mod Logger
pub mod Regex
pub mod Pizza
pub mod Parser
pub mod Ipc
pub mod Kitchen
pub mod Reception
pub mod Shell
pub mod Main
pub mod Concurrency
