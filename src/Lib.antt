-- ===== src/Lib.antt =====
-- Verification of the core of single_fs: an rsync of files (librsync), packets over a network
-- (depends/net and net.v1), a chat, an rsync service and a file server on top of them (chat,
-- simple_rsync, app), a file system with an index (depends/fs), and the queue under the checksum
-- (depends/type); and of the answer to a request of the HTTP server (http_server.1.1.0).
--
-- A program that has the old version of a file signs it: GenerateSigFile splits it into blocks and
-- writes a weak and a strong sum for each. One that has the new version makes a delta against the
-- signature: GenerateDeltaFile reads the signature (ParseMetaList), rolls a window over the new
-- file (ScanNewFile) and writes for each block found its place in the old file, and what lies
-- between as it stands. PatchFile makes the new file of the old one and the delta. Files are read
-- through FileMap and written through WriteFileMap; the window's sums are kept by Checksum3 over a
-- CircleQueue.
--
-- A client of the chat or of simple_rsync fills a Package, a block of memory with a place in it,
-- and hands it over as a Packet. The event loop calls HandleOutput of the StreamSocketContext,
-- which sends the packet as a frame, and on the other side HandleInput, which makes a packet of
-- the frame and passes it to a handler. The server's handler puts a task on a TaskQueue, from
-- which a thread takes it: it adds a user or sends a message on, or answers with the table of a
-- file or a part of it. Packets go back in the same way, to a caller that waits for one
-- (need_ack_) or to a handler. The contexts that the loop watches stand in a SimpleList.
--
-- The server of app stores each file that a client puts under the next number of the file system
-- with an index, and answers a get of that number with the file. The HTTP server reads its
-- settings from lines of text, and answers a GET with a head, a length and the file that is named.
--
-- Base.antt: numbers, lists, maps as lists of pairs, Boolean tests, words in network order and
-- blocks of memory that the others share. A block is a list; an access outside it, or an int32_t
-- that overflows, is `none`, which stands for undefined behaviour throughout.
--
-- CircleQueue.antt: single_fs/depends/type/circle_queue.h, one function for each member (push,
-- pop, peek for front, clear, get_data for GetData, realloc for Realloc). Window.antt relates a
-- queue to the list that it holds, Growth.antt is about Realloc, Ends.antt about push and pop, and
-- Sliding.antt about a queue that is filled once and then moved on.
--
-- Checksum.antt, Checksum/Adler.antt: single_fs/librsync/checksum3.cpp. sum1, init, update and
-- strong_sum are its members; the digest function of OpenSSL is the parameter md4. Digest.antt
-- holds the arithmetic, Rolling.antt the object over its life, Hex.antt the printed digest.
--
-- FileMap.antt, FileWriter.antt: file_map.h, file_map.cpp, write_file_map.h and write_file_map.cpp
-- of single_fs/librsync. A file is a list of bytes.
--
-- Rsync.antt and its children: rsync_core.cpp, rsync_core.h, common.h and file_tool.cpp of
-- single_fs/librsync. Sig.antt is GenerateMetaList, GenerateSigFile and ParseMetaList, Scan.antt
-- is ScanNewFile, Delta.antt is GenerateDeltaFile, Patch.antt is PatchFile and Copy.antt the loop
-- that copies a stretch of a file in pieces. The macro CHUNK_SIZE and the number of cells that
-- Checksum3 asks for are parameters, chunk_size and room, so that a run on a small file is small.
--
-- Net/Package.antt, Net/Packet.antt: package.cpp and packet.h of single_fs/depends/net. get_int
-- and set_int are GetInt32_t and SetInt32_t, with the word as its four bytes. Fields.antt says
-- what stands before and behind the place of a Package, Carried.antt what a Packet holds.
--
-- Net/Stream.antt: stream_socket_context.h and stream_socket_context.cpp there. handle_output and
-- handle_input are HandleOutput and HandleInput. A socket is its history: the bytes that arrive
-- with the most that each call of recv may take, and for each call of send how much it accepts.
-- The result is `waiting` where the code is still in its loop when the history ends.
-- Sending.antt is about Send, Receiving.antt about the loops on recv, Buffer.antt and Decode.antt
-- about the receive buffer, Framing.antt about whole frames, and
-- Transport.antt about the way from one side to the other.
--
-- Net/TaskQueue.antt: task_queue.h there. Each round of Push or Pop holds the lock, so a history
-- of all threads is a list of rounds.
--
-- Net/SimpleList.antt, Net/CommunicateLoop.antt: simple_list.h, communicate_loop.h and
-- communicate_loop.cpp there. A heap of nodes has a map for each field. Chain.antt is about chains
-- of nodes in a field, Order.antt says which list a heap holds, Push.antt, Remove.antt and
-- Each.antt are about the operations, and Closing.antt about the loop's destructor.
--
-- NetV1.antt: stream_socket_context.h and stream_socket_context.cpp of single_fs/depends/net.v1.
-- handle_output, handle_input_impl and chunking are HandleOutput, HandleInputImpl and Chunking. An
-- event is what a call of recv finds. Output.antt is about what is sent, Unpack.antt, Frames.antt
-- and Chunking.antt about the buffer, Input.antt and Transport.antt about a stream that arrives in
-- any pieces.
--
-- Chat.antt: user_connection.cpp, chat_process.cpp, server_handler.cpp, client.cpp and
-- client_handler.h of single_fs/chat. Online.antt is about the two maps of UserConnection,
-- Requests.antt and Messages.antt about what is sent. Log.antt is WriteLog of log.cpp of
-- single_fs/depends/utils, with what it puts before a text as an argument.
--
-- Fs/FileUtils.antt, Fs/Ifs.antt: file_utils.cpp, ifs.h and ifs.cpp of single_fs/depends/fs. A
-- file system is a map from names to bytes. Layout.antt is the table's nodes in memory, Store.antt
-- writing and reading, Restart.antt saving and loading the table.
--
-- Service.antt: rsync_service.cpp, server_processor.cpp, server_handler.cpp and client.cpp of
-- single_fs/simple_rsync. Protocol.antt is about the table in a reply, Requests.antt about a
-- request for a part of a file, Summer.antt is Sum1 of checksum3.cpp there,
-- Table.antt about GenerateMetaList, Transfer.antt is the client's GetFile and ConstructFile, and
-- GetFile.antt what they give.
--
-- App.antt, App/Server.antt, App/Client.antt: common.h, server_handler.cpp and client.cpp of
-- single_fs/app. echo_from_ifs is EchoFromIfs; Get and Put are each two functions, up to the packet
-- that is sent (get_packet, put_packet) and from the packet that comes back (get_answer,
-- put_answer). Answers.antt is about the server, Numbers.antt about the text of a number,
-- Requests.antt about the client's packets, Exchange.antt about a file on its way and back.
--
-- Http/Config.antt, Http/Response.antt: config.cpp and util.cpp of http_server.1.1.0/depend, and
-- http_conf.h, http_conf.cpp, cgi.cpp, response.cpp and http_work_flow.cpp of
-- http_server.1.1.0/src. deal_with_request is DealWithRequest; the program php is a parameter.
-- Settings.antt is about the settings, Names.antt about the end of a file's name, Digits.antt about
-- the number in the length, Sending.antt about the socket and Answer.antt about the whole answer.
--
-- Bounds: an int32_t is a number below 2 ^ 32, its bit pattern, in what is stored in a file, and a
-- number below 2 ^ 31 elsewhere, where an overflow is `none`. The one exception is offset_ of
-- WriteFileMap, which nothing reads: it wraps when a file passes 2 GiB. The one fuel is the rounds given to the outer loop of
-- ScanNewFile, one more than the file has bytes: each round moves on by a byte at least. Chunking
-- has one more than the buffer holds bytes, since a frame has some; SendFile of the HTTP server one
-- more than the file has bytes; the loop over a SimpleList more than the list has nodes; a number
-- is printed in no more digits than itself and one. The loops over counts recurse on what is left
-- of them.
--
-- Not modelled: files that fail to open; logging, but for the line of a message in the chat; the
-- freeing of memory, but for the nodes of a list; connecting, listening and threads, of which only the order of their steps under a lock is
-- modelled; ScanFile and ScanFile1 of simple_rsync; EchoFromFs of app, which has no caller; the
-- threads, the task queue and the epoll loop of the HTTP server; its earlier versions and the other
-- copies of code in the repository.
pub mod Base
pub mod CircleQueue
pub mod Checksum
pub mod FileMap
pub mod FileWriter
pub mod Log
pub mod Rsync
pub mod Net
pub mod NetV1
pub mod Chat
pub mod Fs
pub mod App
pub mod Http
pub mod Service
