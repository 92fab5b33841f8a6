-- ===== src/Lib.antt =====
-- HardwareServer: the servers of the game "dreamheroes" (server/server/dreamheroes_server-master).
--
-- Players connect to the login server, which checks the name and the password in a database, gives
-- the player a transaction number and announces it to the least loaded gate. The gate accepts the
-- player's connection for an announced transaction, puts the player on an idle game server and
-- relays the messages between them; a player whose connection is lost is parked for five minutes
-- and may come back. The game server keeps a hero for each player. The database server keeps them.
--
-- The paths below are those from server/server/dreamheroes_server-master.
--
-- Prelude: Boolean tests on numbers, lists, 32-bit integers, texts and maps by texts.
-- ObjMap: common/common_template.h, the maps that all servers keep their objects in. `find`,
--   `get_data`, `add_data`, `erase_data`, `get_key` and `erase_value` are getData, addData, eraseData,
--   getKey and eraseValue. Laws, Entries and Values hold what each of them does.
-- Events: the timed events of one object, as the login server uses them.
-- Timers: common/event_manager.h and common/event_table_object.cpp. The events of all objects stand in one
--   store with their counts of references; Update is EventableObjectHolder::update, whose callbacks call
--   back and destroy objects, Counts and Loop what each call and each round leaves, History any history of a server. The loop
--   has fuel, since a callback that adds events may keep it running.
-- Gate: the gate server, gateserver/. State holds the objects of the server as one record, whose
--   `sent` is the list of what has left the process; Session is user_session.cpp (setState), Games is
--   game_manager.cpp, Users is user_manager.cpp, and Handlers has the handlers of user_session.cpp,
--   game_client.cpp and login_client.cpp. `step` is one message, timer or closed connection, and
--   `run` a history of them. Users.Login, Users.Reconnect and Users.Removal follow a player through
--   several calls; Handlers.Parked and Handlers.Ordered are invariants of all histories.
-- Login: the login server, login/. Gates is gate_manager.cpp with the balance of gate_session.cpp and
--   the states of user_session.cpp, Accounts is account_manager.cpp, Handlers the handlers.
-- Hero: gameserver/DreamHero.cpp. Suits has ModifySuit, modify_suit and DelSuit, LevelUp has
--   EquipLevelUp, Equips the sending of the equips in SendClientInit, Save the statements of SaveHero,
--   SuitText its text of the suits and the statement that it stands in, with both buffers, Toys has
--   VerifyToyCDKey, VerifyToy and RemoveToyByCDKey with the map of DreamHeroManager.cpp, Config has
--   GameConfig.cpp and LoadFromConfig.
-- Net: the transport, common/. Frames is message_interface.cpp (makeMessage, compress, uncompress);
--   Stream is handle_read_some of tcpsession.cpp, which cuts the bytes of a socket into messages; its
--   loop has fuel, the number of bytes in the buffer, of which each pass takes at least ten. Queue is
--   the way out: _send_message, _write_message and handle_write. Inbox is the double queue of
--   tcpserver.cpp, tcpclient.cpp and call_back.cpp between the threads, whose polls are taken apart into
--   rounds, and Server the bans and the sessions of tcpserver.cpp, with any history of a server.
--   Proto is protoc_common.h: how a message gets its name and flag in front and comes back to a callback,
--   with the buffers of thread_buffer.h; Proto.Delivery puts it together with Frames and Stream.
-- Game: the players of the game server, gameserver/gate_manager.cpp, session.cpp and
--   DreamHeroManager.cpp: which session a hero is tied to. A call that reads through NULL or through a
--   pointer to a released session is `none`. Sessions.Tied.History is the invariant of all histories.
-- Db: the database server, databaseserver/. Quest is db_quest.cpp with the handlers of game_session.cpp and
--   game_manager.cpp; the tables of the database are arguments, and an exception that nothing catches ends
--   the process. Suits follows the suits of a hero from SaveHero through the database, Answers a request for a hero, Close the end of the game servers.
-- Text: common/utilities.cpp and common/crypt.cpp. Split is SplitStringA, Numbers the numbers that are
--   printed and read, Cipher encrypt_string and decrypt_string, Crypt.Crc the checksum,
--   Crypt.Dictionary sslEncrypt and sslDecrypt. SplitStringA looks for the delimiter at most once for
--   each byte and once more.
-- Tests: runs at concrete inputs.
--
-- Objects are named by numbers, and NULL is `none`. An integer of a field that the code only copies
-- or compares is a natural number; where the code computes with an `int` the model wraps to 32 bits.
-- The loops over the slots of game servers and gates run over the constant number of slots (255).
-- A history is a list of events, each of which runs to its end, as the servers handle messages in one
-- thread. Arguments stand for what is not read here: the configured limit of an idle game server, the
-- configuration of level ups, the answer of the database and of checkVersion, the CRC that
-- makeTransId takes of a name, a password, an address and the time, the compression of messages, the
-- generated classes of the messages, what the database keeps of a literal, which calls the callback of a
-- timed event makes, and what the memory behind received bytes holds.
-- Where the code is undefined the model says so in a comment, and DelSuit answers `none` there.
--
-- Not modelled: sockets and threads, the library of protocol buffers and the encoding of messages (generated
-- code), SQL, dates, logs, start-up and configuration files, memory pools, and the virtual client.
mod Prelude
pub mod ObjMap
pub mod Events
pub mod Timers
pub mod Gate
pub mod Hero
pub mod Login
pub mod Net
pub mod Db
pub mod Text
pub mod Game
mod Tests
