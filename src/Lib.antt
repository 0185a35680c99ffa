-- ===== src/Lib.antt =====
-- gensync-core: set reconciliation between two parties. A party keeps a set of elements
-- (integers) in a sync method; a sync method summarises its elements in a structure (an
-- invertible Bloom lookup table, a Bloom filter, a cuckoo filter, a characteristic polynomial),
-- sends it through a communicant, and finds from the structure of the other party which elements
-- each lacks.
--
-- The modules:
-- - Prelude: Boolean tests, lists, integers, bits, the group of table cells, and the outcomes of
--   a call (a value, Logger::error_and_quit, an exception, a step that C++ leaves undefined).
-- - Platform: NTL's exclusive or and its conversion to an int, sizeof(ZZ) and std::hash, as a
--   parameter with the laws that are documented.
-- - Ntl: NTL's conversions between integers and bytes, as a parameter with the laws that are
--   documented, and an instance.
-- - Iblt: src/Syncs/GenIBLT.cpp and include/GenSync/Syncs/GenIBLT.h. A table is a record of its
--   fields; insert, erase, operator-= and listEntries return the new table. Iblt/Sums reads a
--   table as a sum in the group of cells, Iblt/Update and Iblt/Subtract say what the operations
--   do to that sum, Iblt/Peel and Iblt/Decode follow the loops of listEntries, Iblt/Honest
--   and Iblt/Ends what is left of the keys while they run, Iblt/Order says that the order of
--   insertions does not matter, and Iblt/Reconcile puts them together for two parties. Iblt/Get is the lookup get, and Iblt/Inserted is about
--   it.
-- - Decimal: toStr and strTo of include/GenSync/Aux/Auxiliary.h on unsigned numbers, with the
--   streams of C++ as a parameter, and an instance.
-- - DataObject: pack and unpack of src/Data/DataObject.cpp. An element is its integer.
-- - Communicant: src/Communicants/Communicant.cpp over the string stream of
--   src/Communicants/CommString.cpp, which both ends share, with the counters of bytes. commSend
--   and commRecv of a type are send_ and recv_ functions on that state. Communicant/Wire says
--   what a send puts on the stream and a receive takes off it, and how the two compose;
--   Communicant/Numbers, Communicant/Strings, Communicant/Vectors and Communicant/Tables follow
--   the types; Communicant/Handshake has establishModSend and its kin, cut in two where they
--   wait, and Communicant/Agree runs both ends.
-- - IbltSync: src/Syncs/IBLTSync.cpp over include/GenSync/Aux/SyncMethod.h. SyncServer and
--   SyncClient are cut where they wait for each other: the handshake is in Communicant/Handshake,
--   then client_send, server_run and client_finish. IbltSync/Exchange runs both ends;
--   IbltSync/Elements is about addElem and delElem.
-- - BitArray: src/Syncs/Compact2DBitArray.cpp and include/GenSync/Syncs/Compact2DBitArray.h. The
--   store is a list of bytes, and its operations go byte by byte as the code does.
--   BitArray/Values reads a list of bytes as one number and an entry as a field of it;
--   BitArray/NextByte, BitArray/Window, BitArray/WindowValue, BitArray/Spread and BitArray/Single
--   follow the loops and branches, BitArray/Place and BitArray/Whole put them into the whole
--   vector, BitArray/Entries and BitArray/Table say what a caller sees, and BitArray/New is about
--   the constructors.
-- - Cuckoo: src/Syncs/Cuckoo.cpp and include/GenSync/Syncs/Cuckoo.h over that array. The
--   exceptions that the filter catches itself are options, and the generator of random numbers is
--   a parameter. Cuckoo/Hashed and Cuckoo/Suitable are about the two buckets of an element,
--   Cuckoo/Kicks about giving up, Cuckoo/Present, Cuckoo/Search and Cuckoo/Member about
--   membership, Cuckoo/Ends about ending, and Cuckoo/Erase about erasing.
-- - CuckooSync: src/Syncs/CuckooSync.cpp, and commSend and commRecv of a cuckoo filter in
--   src/Communicants/Communicant.cpp. SyncServer and SyncClient are cut where they wait for each
--   other: client_send, server_query, client_query, server_finish, client_finish.
--   CuckooSync/Transfer is about the filter on the wire, CuckooSync/Missing about what an end
--   lists as its own, and CuckooSync/Exchange runs both ends.
-- - BloomFilterSync: src/Syncs/BloomFilterSync.cpp. SyncServer and SyncClient are cut where they
--   wait for each other: server_open, client_open, server_query, client_finish, server_finish.
--   BloomFilterSync/Exchange runs both ends.
-- - FullSync: src/Syncs/FullSync.cpp and include/GenSync/Syncs/FullSync.h, with rangeDiff of
--   include/GenSync/Aux/Auxiliary.h and commRecv_DoList of src/Communicants/Communicant.cpp. The
--   multiset of shared pointers is the sorted list of the values. FullSync/Multiset is about the
--   sorted lists, FullSync/Elements about addElem and delElem, FullSync/Exchange runs both ends,
--   client_send, server_run and client_finish, and FullSync/Reconcile says what they compute.
-- - GenSync: src/Syncs/GenSync.cpp and include/GenSync/Syncs/GenSync.h, over the list of
--   src/Data/InMemContainer.cpp and include/GenSync/Aux/SyncMethod.h. What the container asks of
--   a sync method is the record SyncMethod, with the promises of the base class, and a run of its
--   protocol is a ProtocolEnd, which may leave the method in another state; GenSync/Method
--   makes FullSync, IBLTSync, MET_IBLTSync, BloomFilterSync and CuckooSync into such methods.
--   GenSync/InStep is about deletions and additions, GenSync/Reach about the states that a
--   container comes to, GenSync/Clear about clearData, and GenSync/Union about two containers
--   that synchronize.
-- - MetIblt: src/Syncs/MET_IBLT.cpp and include/GenSync/Syncs/MET_IBLT.h over Iblt; the loop of
--   peelAll is on fuel. MetIblt/Tables is about insertions and erasures in all the tables,
--   MetIblt/Peel about peelOnce.
-- - MetIbltSync: src/Syncs/MET_IBLTSync.cpp over MetIblt. The two loops are cut where an end
--   waits for the other: client_send, server_round and client_hear make a round, server_finish
--   and client_finish follow the last one, and MetIbltSync/Round runs them together, on fuel for
--   the rounds, which the code does not bound. MetIbltSync/Elements is about addElem and delElem,
--   MetIbltSync/Grow about the new types of cells.
-- - Bloom: src/Syncs/BloomFilter.cpp and include/GenSync/Syncs/BloomFilter.h. Bloom/Member is
--   about membership; Bloom/Bits, Bloom/Pack, Bloom/Unpack and Bloom/Transfer are about the
--   conversion to an integer and back.
--
-- Integers: a key is a natural number, since elements of sets are; counts of a cell are integers
-- without a bound, since a long holds any number of updates that can be made. A hash is a 64-bit
-- value of a function that is a parameter; nothing is assumed of how it spreads. The receive loops
-- that count with an int have that counter, which is undefined where it overflows.
--
-- Fuel: the outer loop of listEntries runs on fuel. A cell that is pure by a collision of checks
-- can keep that loop from ending; Iblt/Ends says how much fuel is enough where no check collides.
-- The loop of a cuckoo filter's insert is bounded by maxKicks in the code. The loop of
-- commRecv_vec_ZZ_p takes the received integer and one more, which is always enough, since each
-- round divides it by two at least.
--
-- Not modelled: the protocols over polynomials (CPISync and its kin) and over nested tables; of
-- the modelled files, the text form of a table, tables of tables, doubles, priority objects and
-- multisets on the wire, constructors that compute with floats, and post-processing but the default. Sockets, files, logs and
-- benchmarks are input and output; the data sketches are another project's.
pub mod Prelude
pub mod Platform
pub mod Ntl
pub mod Decimal
pub mod DataObject
pub mod Iblt
pub mod Bloom
pub mod BitArray
pub mod Cuckoo
pub mod Communicant
pub mod IbltSync
pub mod CuckooSync
pub mod BloomFilterSync
pub mod FullSync
pub mod GenSync
pub mod MetIblt
pub mod MetIbltSync
