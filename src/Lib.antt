-- ===== src/Lib.antt =====
-- Verification of Hyperbot, a bot for the game Silkroad Online.
--
-- The program listens between the game's client and server. Bytes pass through the security layer
-- (bot/src/shared), become packets, and are parsed; the packet processor updates the state of the
-- world and of the character (bot/src/state, bot/src/entity, bot/src/storage) and publishes events on
-- the broker (bot/src/broker); state machines (bot/src/state/machine) react to the events and build
-- packets; the learner (bot/src/rl) stores what the characters observe.
--
-- The parts that are modelled, and where. A definition has the name of the function that it
-- translates, in snake case; a loop is a definition of its own.
--   TypeId       bot/src/type_id/typeCategory.cpp and .hpp, splitTypeId of bot/src/helpers.cpp, and the
--                named categories of bot/src/type_id/categories.cpp. A type id is a number of 16 bits;
--                shifts are products and quotients, and what a cast cuts off is written out.
--   Item         bot/src/storage/item.cpp and .hpp. The classes of items are the constructors of one data
--                type, a dynamic_cast is a function into Option.
--   ItemList     bot/src/storage/itemList.cpp: a list of slots, an exception is an error of Result.
--   Storage      bot/src/storage/storage.cpp and .hpp on ItemList: moves, stacking and the iterator.
--   Buyback      bot/src/storage/buybackQueue.cpp: the array of five slots with its size.
--   Broker       Timers: bot/src/broker/timerManager.cpp, the heap of timers and each operation done
--                under the lock, and pruneTimers with what joins the heap between its turns. Events: bot/src/broker/eventBroker.cpp on Timers. What the standard
--                library does with heaps is the record HeapAlgorithms; Timers/Heap fills it with sorted
--                vectors. Interleavings of threads are the steps of Timers.Reach and Events.Session.
--   World        bot/src/state/entityTracker.cpp, bot/src/state/worldState.cpp and the buffs of
--                bot/src/entity/character.cpp. A shared entity stands in the tracker's map, where a
--                change to it is made.
--   SkillEngine  bot/src/state/skillEngine.cpp, whose cooldowns wait for events of the broker.
--   ReplayBuffer bot/src/rl/replayBuffer.hpp and .inl. Floats and random draws are records without
--                laws; Retrieve.exact is an instance that does not round.
--   ObservationStorage  bot/src/rl/observationAndActionStorage.cpp: deques of observations per character
--                and session, their weights, and the ids of observations. What is observed is a parameter.
--   StateMachine bot/src/state/machine: the base class, sequences and sets of machines, and the opcodes
--                that bot/src/proxy.cpp blocks for them. Tasks: what the machines see and put out.
--                MoveItem, BuyingItems, SellingItems, PickItem, EquipItem, UseItem and ApplyStatPoints:
--                the machines of these names. SellingItems/Server runs a task against PacketProcessor.
--   PacketProcessor  the handler of bot/src/packetProcessor.cpp for the inventory operations, on the
--                storages, the gold and the buyback queue of the character.
--   Packet       bot/src/packet. Commands: the requests of commands, of item use, selection and talk, built
--                and parsed. Items: the parsers of items and rents of packet/parsing/commonParsing.cpp and
--                the builder of items of packet/building/commonBuilding.cpp. Movements: the server's
--                response to inventory operations, the movement of PacketProcessor that each parsed one
--                is, and purchases. The library's stream of bytes is the record Streams with the law
--                IsFifo; Bytes fills it with lists of little-endian bytes. A number is its bits, so a
--                float and a signed number are read as numbers. What a constructor leaves uninitialised
--                is a blank object that the parser is given. Positions: positions are normalized as in
--                silkroad_lib/src/silkroad_lib/position.cpp; the operations on its floats are the
--                record Offsets, without laws.
--   Prelude      what they share: tests on numbers, lists by native indices, results, maps, bit
--                operations and counts of elements.
--
-- Bounds and fuel. Counters keep their wrap-around (8 bits in Buyback, 32 in Broker). The theorems of
-- Broker take at most 2^32 timers or events, so that the counters do not wrap. Loops on fuel: the
-- iterator of Storage and the search of slots in ItemList take the number of slots; shift_down takes
-- the size of the array; prune_timers takes the number of timers on the heap and to join it;
-- propagate_from takes more than the index of its node, which shrinks, and descend takes the number of
-- nodes, as the index of its node grows; run_from of Concurrent takes as many rounds as there are
-- machines.
--
-- Not modelled: threads, condition variables and the waiting loop of the timer manager (an
-- operation is what happens under the lock); the counts of callers that make
-- unsubscribeFromEvent wait; negative delays and the clock's units; logging; the durability of
-- items and the positions of entities, which are floats (the position in a command is modelled);
-- the events that the world state publishes; callbacks that cancel timers while pruneTimers
-- runs. The ciphers and packet framing of bot/src/shared and silkroad_lib/blowfish.cpp are a
-- library of their own that was copied here. What an exception of the observation storage leaves
-- behind is not modelled. The other tasks of the state machines, the other handlers of the
-- packet processor, the other packets and the reading of the game's archives are left out; what
-- the world state and the shop data know of a purchase is a parameter; the user interfaces, the
-- model in Python, the navigation meshes and the loader of the client are input and output or
-- floating-point geometry.
mod Prelude
pub mod TypeId
pub mod Item
pub mod ItemList
pub mod Storage
pub mod Buyback
pub mod Broker
pub mod ReplayBuffer
pub mod ObservationStorage
pub mod World
pub mod SkillEngine
pub mod StateMachine
pub mod PacketProcessor
pub mod Packet
