-- ===== src/Lib.antt =====
-- A verification library for mayara, a server and a core library for marine radars.
--
-- The core library (mayara-core) parses what radars send and keeps the state of a connection, of
-- the ranges and of the echoes, all of it without I/O; the server (mayara-server) feeds it from the
-- network, records the spokes it forwards and detects the ranges a radar has. The parts that are
-- modelled meet in data, not in calls: a spoke that is decoded (Furuno, Raymarine, Navico) is what the history of the
-- echoes stores (Arpa) and what a frame of a recording holds (Recording).
--
-- Files and the code they model:
--   Prelude            native numbers, lists, Boolean tests, little-endian words, integers
--   Recording          mayara-server/src/recording/file_format.rs
--     Medium           a seekable file as bytes and a position: write_all, read_exact, seek
--     Layout           MrrHeader, MrrFooter, MrrIndexEntry: fields, bytes, write and read
--     Frame            MrrFrame: new, with_state, write, read, size
--     Writer           MrrWriter: new, write_frame, finish
--     Reader           MrrReader: open, read_frame, seek_to_timestamp, rewind
--     Session          a session from the first call of the writer to the finished file
--   Furuno             mayara-core/src/protocol/furuno/mod.rs: spoke frames
--     Spoke            parse_spoke_header, decode_encoding_0 to _3, parse_spoke_frame
--     Command          furuno/command.rs beside it: format_command, the range table
--       Formats        format_status_command to format_antenna_height_command, format_request_*
--       Responses      parse_response, parse_status_response to parse_blind_sector_response
--     Report           furuno/report.rs: parse_report, firmware_to_model; f32 is a parameter (Float32)
--   Packet             what the parsers of the brands share: ParseError of mayara-core/src/error.rs,
--                      reads of a slice, which can panic, and the structs that bincode reads
--     Text             c_string of mayara-core/src/protocol/mod.rs, ports and addresses as texts
--     Discovery        RadarDiscovery of mayara-core/src/radar.rs, Brand of mayara-core/src/brand.rs
--   Raymarine          mayara-core/src/protocol/raymarine.rs
--     Spoke            decompress_quantum_spoke, decompress_rd_spoke
--     Frames, Status   parse_quantum_frame_header, parse_rd_frame_header; the status reports
--     Beacons          parse_beacon_56, parse_beacon_36, parse_beacon_response
--   Navico             mayara-core/src/protocol/navico.rs: models, modes, headings
--     Reports          parse_report_01 to parse_report_08
--     Spoke            the spoke headers, unpack_spoke_data, unpack_spoke_data_doppler
--     Beacons          parse_beacon_response, parse_beacon_endpoints
--     Commands         create_status_command to create_doppler_command
--   Garmin             mayara-core/src/protocol/garmin.rs: parse_report, the commands
--   Connection         mayara-core/src/connection.rs
--     Connection.antt  ConnectionState, ConnectionManager: a function per method, with the time
--     Login            parse_login_response
--     Socket           ReceiveSocketType
--   DualRange          mayara-core/src/dual_range.rs: DualRangeController
--   Ranges             mayara-server/src/radar/range.rs: Range, Ranges
--     Detection        RangeDetection: new_for_brand, found_range
--   Arpa               mayara-core/src/arpa
--     Doppler          doppler.rs: DopplerState
--     Polar            polar.rs: Polar, FOUR_DIRECTIONS
--     History          history.rs: HistoryBuffer, pix, update_spoke
--     Contour          contour.rs, and get_contour of history.rs
--     Blob             multi_pix, find_contour_from_inside, find_nearest_contour, get_target
--   Trails             mayara-core/src/trails/history.rs: TargetTrail, TrailStore
--   GuardZones         mayara-core/src/guard_zones/zone.rs: GuardZoneProcessor
--     Step             the state of one zone: the peak of a spoke and the alarm
-- The modules below these hold the lemmas and are named for them; Tests holds concrete runs.
--
-- Conventions: a struct is a record with the source's fields, an enum a data type, a method that
-- changes its object a function that returns the new one. Unsigned words are native naturals, and
-- where a sum can pass the word the remainder is written out; i32 values are integers (Prelude.Int).
-- Floating-point values are stored as their bits; where the code computes with them the operations
-- are parameters (Float32 of Furuno/Report and of Garmin). An overflow of u64 in add_point of the
-- trails is a panic or a wrap-around, by a parameter that stands for the build's overflow checks. A
-- HashMap is an association list. Texts are lists of code points. `bincode` is a parameter
-- (Packet/Struct): it gives the bytes of a struct's fields in their order, as it is documented to.
-- A parser's outcome is a value, an error or a panic, and reading a slice out of range is the panic.
--
-- Loops: those over a list or a counter recurse on it. The loop of seek_to_timestamp is on fuel, one
-- more than the frames of the footer, since each round reads a frame; running out of fuel is a value
-- of its own, so that a result says the loop has ended. The contour loop runs at most
-- MAX_CONTOUR_LENGTH rounds in the source too.
--
-- Not modelled: errors of the medium while writing, logging and display; sockets, tasks, HTTP and
-- the settings store, which are I/O; an allocation that fails for want of memory; the Kalman
-- filter, the CPA and the coordinates, which are f64;
-- the dispatch of Furuno controls, the packets of own heading and speed for Navico radars, the
-- capabilities and the controllers.
pub mod Prelude
pub mod Arpa
pub mod Connection
pub mod DualRange
pub mod Furuno
pub mod Garmin
pub mod GuardZones
pub mod Navico
pub mod Packet
pub mod Ranges
pub mod Raymarine
pub mod Recording
pub mod Trails
