-- ===== src/Lib.antt =====
-- linux-interface-test: a collection of programs that each exercise one interface of Linux. main.cpp
-- calls the one program that config.h switches on, so the programs do not call one another; some
-- come in pairs, a sender and a receiver on two hosts, which meet only in the bytes between them.
-- Modelled are the programs with logic of their own. What the system calls return is a parameter of
-- the definitions: a list of results, a function from the round to the result, or a record of the
-- environment. A byte is a number below 256, a word of w bits wraps by `% 2 ^ w`, and the byte order
-- of the host is a parameter, since the programs are built for x86, mips and powerpc.
--
-- Base.antt and Base/: tests, lists by native numbers, words and byte order, signed integers, arrays
--   of two, stores into a block of memory.
-- Checksum.antt and Checksum/: the Internet checksums. src/socketRaw/rawSocketDump.cpp has
--   CalcIpv4HdrCheckSum and CalcUdpCheckSum, and the same text stands in
--   src/socketRaw/rawSocketUdpSendTest.cpp; src/icmp/ping.cpp has CalcCheckSum. Checksum/Spec.antt is
--   the sum of RFC 1071 without a bound. The carry loop has fuel 3; it ends within it from any uint32_t.
-- RawDump.antt and RawDump/: src/socketRaw/rawSocketDump.cpp. Packet.antt parses a frame
--   (ParsePacketHdr and the functions it calls) and filters it, Loop.antt dumps it and is the loop of
--   RecvPacket. Loop bounds are those of the code, on lists of what recv returns.
-- RawSend.antt and RawSend/: src/socketRaw/rawSocketUdpSendTest.cpp. RawSend.antt has the header builders
--   (BuildEthHdr, BuildIpv4Hdr, BuildUdpHdr), Loops.antt SendUdpPacketLoops on a block of bytes, with a
--   list of whether each sendto succeeds; it stops where the code or the list stops.
-- UdpOrder.antt and UdpOrder/: src/udp/udpOrderSendRecv.cpp. Stats.antt has the statistics in two
--   cells with the halves of a round of ThreadRecvCount, CheckSno.antt CheckSno and the receive loop,
--   SendBuf.antt PrepareSendBuf, InitRandomLenBuf and GetSendLen, Sender.antt the sending loop,
--   Setup.antt UdpOrderSendRecv_Tx and UdpOrderSendRecv_Rx from their arguments on, with
--   InitInetSocket up to its exit in the middle. The loop over the digits of the processor argument has
--   fuel 11, one more than an int has digits. recv_loop and send_loop run over lists of what recvfrom
--   and send return, and stop where the code stops.
-- Transmit.antt and Transmit/: src/tcp/tcpFileTransmitter.cpp. Sending.antt is
--   TcpFileTransmitter_Sender, Receiving.antt TcpFileTransmitter_Receiver from the accepted
--   connection on. The loop of the receiver has fuel; one more round than bytes is enough.
-- Ping.antt and Ping/: src/icmp/ping.cpp. SetIcmpHead, SendIcmpPacket and UnpackIcmpPacket;
--   Ping/Waiting.antt has RecvIcmpPacket and the waits for gResFlag.
-- Statistics.antt and Statistics/: src/statistics/statisticsTest.cpp as a step relation, one access of
--   memory of either thread at a time.
-- Mutex.antt and Mutex/: src/sync/mutexTest.cpp. The table of threads, ThreadCnt as a step relation
--   for any number of threads, and the error statistics of Lock and Unlock.
-- PackageTcp.antt and PackageTcp/: src/udp/udpPackageTcp.cpp. The receive loop of
--   UdpPackageTcp_Receive and the sending loop of UdpTest_Send.
-- Arp.antt and Arp/: src/socketRaw/rawSocketArp.cpp. The frames of SendArpPack, RecvArpPack, and the
--   rounds of GetMacAddrFromArp, ten as in the code. Arp/Replies.antt has a reply as it is on the wire.
-- Echo.antt and Echo/: src/tcp/tcpEchoServerMultiProcess.cpp. TcpEchoServerMultiThread_Server as steps
--   of the thread that accepts and of the threads it makes (ThreadServerResponse), with the one
--   variable clientFd between them, and the loop of TcpEchoServerMultiProcess_Server.
-- SelectServer.antt and SelectServer/: src/tcp/tcpEchoServerSelect.cpp. One round of the loop of
--   TcpEchoServerSelect_Server is a function of what select, accept and recv return;
--   select_rounds runs a given number of rounds.
-- Chat.antt and Chat/: src/tcp/tcpChatMultiProcess.cpp. TcpChatMultiProcess_Server as steps of its
--   processes, with the tables of their descriptors and the array that they share.
-- Fgets.antt and Fgets/: src/stdio/fgetsTest.cpp. InputLoop on what standard input holds, with fuel for
--   each call of fgets, and ThreadBlockRecv as steps, its test of the status and its store apart.
-- Logger.antt and Logger/: src/logger/logger.cpp, the macros of src/logger/logger.h, and the size
--   argument of src/logger/loggerTest.cpp, on the bytes and the position of the file.
-- FileCopy.antt: the loop of src/file/fileCopy.cpp. TcpTest.antt: the lines of TcpTest_Client and the
--   receive loop of TcpTest_ServerAcceptOneClient in src/tcp/tcpTest.cpp, with fuel; one more round than
--   bytes is enough. UdpMulti.antt: ThreadSend and the loop of ThreadRecv in
--   src/udp/udpMuliSendOneRecv.cpp. Walk.antt: the loop over stack frames of
--   src/backtrace/realizeBacktraceByself.cpp, with fuel for each frame.
-- Cas.antt: ThreadFunc of src/cas/casBaseOnGcc.cpp as a step relation, its plain addition in two steps.
--   UdpSend.antt: UdpSend_Send of src/udp/udpSend.cpp. UdpWrite.antt: writeData of
--   src/udp/udpSendTest.cpp on a list of what sendto returns. MsgQueue.antt: MsgQueueSendLoop of
--   src/msgQueue/msgQueueTest.cpp and the loop of src/msgQueue/msgQueueRecv.cpp, with a queue as the
--   list of its messages.
--
-- Assumed of the system calls: send and write take a buffer whole or fail, recv with MSG_WAITALL brings
-- all that it was asked for or all that is left, a mutex whose calls succeed is held by one thread at
-- a time, and in statisticsTest.cpp the sleep before a cell is collected outlasts the time for which
-- the counting thread keeps a pointer. accept returns a descriptor that is not open, recv and send on a
-- descriptor that is not open fail, a recv that waits keeps its connection when its descriptor is
-- closed, select fails when one that it is asked about is not open, and fork gives the child a copy of
-- the descriptors. A datagram or a frame that is received is cut to the buffer it is received in.
--
-- Not modelled: texts that are printed, except where a log is state of a program; the round-trip
-- time of ping, a double; the set-up calls of sockets, priorities and processors, except where their
-- order decides what the program does; and the programs that only pass values to the kernel.
pub mod Base
pub mod Checksum
pub mod Echo
pub mod SelectServer
pub mod Chat
pub mod Fgets
pub mod FileCopy
pub mod Walk
pub mod Logger
pub mod UdpMulti
pub mod TcpTest
pub mod Cas
pub mod UdpWrite
pub mod UdpSend
pub mod MsgQueue
pub mod RawDump
pub mod RawSend
pub mod UdpOrder
pub mod Transmit
pub mod Ping
pub mod Statistics
pub mod Mutex
pub mod PackageTcp
pub mod Arp
