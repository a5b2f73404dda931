-- ===== src/Lib.antt =====
-- wfc-server: a server for the online services of Wii and DS games.
--
-- A console logs in to the presence server (gpcm/), announces itself to the master server (qr2/),
-- finds other consoles through the server browser (serverbrowser/), exchanges match commands with
-- them (common/match_command.go, relayed by qr2/message.go and gpcm/message.go), and gets through
-- their NATs with the NAT negotiation server (natneg/), which tells qr2 how each pair got on.
--
-- Modules:
--   MatchCommand: common/match_command.go. DecodeMatchCommand is decode_match_command and
--     EncodeMatchCommand is encode_match_command, one function for each case of the two switches.
--     (value, ok) is an Option; a nil pointer or a read out of range is `panics`.
--   IpAddress: common/ip_address.go, with the names of the source, and makeLookupAddr of
--     qr2/session.go. An int32 is its bit pattern.
--   Natneg: natneg/. handleConnection is handle_connection, closeSession is close_session, and each
--     handler has its name. A session is a record, its clients a list of pairs under their index.
--     What a handler sends or starts is a list of effects; so is the call of ProcessNATNEGReport, of
--     which the parsing of the two addresses, which may panic, stays. Go visits a map in any order:
--     the orders of the loops are arguments, and the theorems hold for each of them.
--   Qr2: qr2/session.go, qr2/logins.go, qr2/group.go, and the rating checks of qr2/heartbeat.go.
--     Sessions, logins and groups are objects in a memory, pointers are numbers, and the package's
--     maps are association lists. Each operation has its name and takes the whole state. Time and
--     the random numbers are arguments: draws that run out give none, where the code goes on
--     drawing. gpErrorCallback is a list of errors in the state.
--   ClientMessage: SendClientMessage and processClientMessage of qr2/message.go, on the state of Qr2
--     and with MatchCommand. A refusal is none, and what goes out is a record.
--   ServerBrowser: serverbrowser/filter.go. The filter language is a parameter.
--   FriendCode: common/friend_code.go. MD5 is a parameter.
--   MarioKartWii: the checks of ghost files in common/mario_kart_wii.go, and the Mii checksum of
--     common/mii.go. CRC-32 is a parameter, and an expected value of -1 is none. A slice expression
--     panics out of range: the capacity of a file is taken to be its length. A decoder of Yaz1 stands
--     beside VerifyYaz1Data as its specification.
--   Gpcm: gpcm/friend.go, the open host switch of gpcm/profile.go and CloseConnection of
--     gpcm/main.go, with the names of the source. Sessions are objects in a memory, `qr2` in the
--     state is the state of Qr2, and what a handler sends is a list. A list that is shortened while
--     `range` walks along it is kept with the array behind it. Two slips into the log stay: addFriend
--     and removeFriend panic on a GsbrCode of under four bytes.
--   Prelude: tests, lists, words, bits, maps, and the parts of strconv and strings in use.
--
-- Numbers are native naturals; a value of a fixed width is reduced where the source converts it.
-- Loops are structural: over lists, or over a count that is at hand. Two loops run on fuel: the
-- printing of a number has a round more than the number, and each round divides it by ten; the
-- outer loop over a Yaz1 stream has two rounds more than bytes, and each round takes a byte.
--
-- Not modelled: sockets, timers and goroutine scheduling (a resend loop is its round, a timer is a
-- step), the saved state of a restart, logs, nhttp/ and serverbrowser/filter/ (modified copies of
-- other projects), the database, TLS and web parts, the resending in qr2/message.go until a message
-- is acknowledged, gpcm/message.go, the log-in of gpcm/, and gpsp/, nas/, race/, sake/, gamestats/
-- and api/, which mostly query the database.
pub mod Prelude
pub mod IpAddress
pub mod MatchCommand
pub mod Natneg
pub mod Qr2
pub mod ServerBrowser
pub mod FriendCode
pub mod MarioKartWii
pub mod Gpcm
pub mod ClientMessage
