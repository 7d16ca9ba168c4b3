-- ===== src/Lib.antt =====
-- A verification library of the computer networking projects of this repository.
--
-- The router, Router/src/router, has a session with a server, whose messages bring the
-- hardware and the frames. A frame comes in by sr_handlepacket, which gives ARP to
-- sr_handle_arp_packet and IP to sr_handle_ip_packet; that forwards a packet, answers it, or
-- reports an error by ICMP. All of them use the list of interfaces, the routing table and the ARP
-- cache with its queue of requests, which the thread sr_arpcache_timeout sweeps each second by way
-- of handle_arpreq. Everything leaves by sr_send_packet.
--
-- The state of a router is the record Instance; a call is a function from it to it, in Result
-- where the C code can follow a bad pointer. A frame is its list of bytes.
--
--   Prelude            list, option and byte-buffer helpers: little-endian loads and stores
--   Prelude/Result     errors: a NULL or dangling pointer, a read out of bounds, a failed assert
--   Router/Instance    sr_if.h, sr_rt.h, sr_arpcache.h, sr_router.h: the state
--   Router/Frame       sr_protocol.h: the fields of the headers, at their offsets in a frame
--   Router/Cksum       sr_utils.c: cksum
--   Router/Interfaces  sr_if.c: search and set-up of the interfaces
--   Router/Hardware    sr_vns_comm.c: sr_handle_hwinfo
--   Router/Routes      sr_rt.c: the table and its file; the longest prefix match of sr_router.c
--   Router/ArpCache    sr_arpcache.c: entries and the queue of requests
--   Router/Requests    sr_arpcache.c: handle_arpreq, sr_arpcache_sweepreqs, sr_arpcache_timeout
--   Router/Send        sr_vns_comm.c: sr_send_packet and its checks
--   Router/Arp         sr_router.c: sr_handle_arp_packet, sr_send_arp_request
--   Router/Icmp        sr_router.c: sr_send_icmp_packet, sr_echo_icmp_packet
--   Router/Forward     sr_router.c: ip_forwarding, sr_handle_ip_packet, sr_handlepacket
--   Router/Session     sr_vns_comm.c, sr_main.c, vnscommand.h: the session with the server, whose
--                      messages lead to sr_handle_hwinfo and sr_handlepacket
--   Router/Examples    each theorem applied to one small network; Router/Session has its own
--
-- The transport layer of TCP/src has the calls of the application above it and the packets of the
-- network below: transport_init makes the handshake of a connection, and control_loop serves the
-- events of both until it is closed.
--
--   Tcp/Segment        transport.h: the header of a segment
--   Tcp/Context        transport.c: the connection and what it sends
--   Tcp/Transport      transport.c: generate_initial_seq_num, transport_init, control_loop
--   Tcp/Checksum       tcp_sum.c: _mysock_tcp_checksum, _mysock_set_checksum,
--                      _mysock_verify_checksum
--   Tcp/Queue          mysock.c: _mysock_enqueue_buffer, _mysock_dequeue_buffer,
--                      _mysock_free_queue
--   Tcp/Descriptors    mysock.c: the table of descriptors
--   Tcp/Listen         connection_demux.c: the pending connections of a listening socket
--   Tcp/Examples       each theorem applied to one small connection; Tcp/Queue, Tcp/Descriptors
--                      and Tcp/Listen have theirs
--
-- An event carries what the calls that follow it would read, and sends succeed. The loop over the
-- bytes of the application sends one at least in each round, so their number is fuel enough. The
-- sum of the checksum fits an int32_t, as it does for any packet of at most 1500 bytes.
--
-- A packet queue is a linked list: its nodes are kept on a heap, a function from addresses, so that
-- what a call does to the pointers is what is modelled. Where calloc puts a node and whether
-- realloc moves the slots of a listening socket are arguments, and so is what memcpy does on areas
-- that overlap, which the C library leaves undefined: a fault, or what memmove does.
--
--   Tcp/Wire           network_io_tcp.c: packets on a TCP stream
--   Tcp/Network        stcp_api.c, network_io_socket.c: sending and receiving segments, and the
--                      receive thread
--   Tcp/Api            mysock_api.c, stcp_api.c, mysock.c: the calls of the application, and what
--                      the transport layer waits for
--   Tcp/FileTransfer   client.c, server.c: a request, its response and the file
--
-- The proxy of HTTP/starter_code parses a request with proxy_parse.c: ParsedRequest_parse takes the
-- request line apart with strtok_r and stores each header line with ParsedHeader_set, and
-- ParsedRequest_unparse prints the request again.
--
--   Prelude/Text       the searches of string.h on bytes
--   Prelude/Token      strtok_r of string.h, on the buffer that it cuts
--   Http/Request       proxy_parse.h: the structs
--   Http/Headers       proxy_parse.c: the table of headers
--   Http/Unparse       proxy_parse.c: ParsedRequest_unparse and the lengths
--   Http/Attempt       how a parser ends
--   Http/Parse         proxy_parse.c: ParsedRequest_parse, ParsedHeader_parse
--   Http/Proxy         proxy.c: handle_client
--   Http/Examples      each theorem applied to one small request, as in Http/Proxy/Examples
--
-- A string is its bytes before the NUL. The buffer of the request line keeps its NULs, since
-- strtok_r writes them there and the parser computes addresses from what it finds. The loop over
-- the header lines has fuel, one round for each byte of the text and one more.
--
-- handle_client reads a request, parses it, adds two headers, prints it and passes on the reply.
-- What each recv delivers and whether the other calls succeed are arguments; when the list of
-- recvs is at its end, the handler waits. What stands behind the printed request in memory is an
-- argument.
--
-- The two programs in Server&Client copy bytes through a socket.
--
--   Socket             client.c, server.c: the loop of client, and the loop of server on a
--                      connection, with fuel for a round for each byte and one for the end
--   Socket/Examples    three bytes from the input to the output
--
-- The machine is little-endian, as those that the projects run on. The clock is an argument and is
-- read once in a call. malloc never fails; what it leaves in a buffer is an argument `junk`. The
-- folding loop of cksum has three rounds, after which every 32-bit sum has 16 bits.
-- handle_arpreq and sr_send_icmp_packet call one another without a bound: fuel stands for the
-- stack, and running out is an error of its own. A sweep goes forward through the queue, new
-- requests come in front of it, so its length bounds the rounds. Calls under the lock of the
-- cache are single steps; the order in which the two threads make them is that of a list of calls.
-- sscanf and inet_aton are parameters.
--
-- The system calls that the programs make on sockets and files, SHA-1, sprintf and sscanf are
-- parameters: records of functions on a state of the world. What a theorem needs of them it names
-- as a condition, the way their manual pages describe them: a read gives some of the bytes that
-- come, at most as many as asked for. Loops on reads have fuel; a round for each byte, and for each
-- signal where signals are told apart, is enough. Each queue of a mysocket has the nodes of its
-- own, since allocations do not overlap; threads take turns at the calls.
--
-- Not modelled: the command line, the look-up of names and the set-up of sockets in all programs;
-- logs, prints other than those of the server in Server&Client, and SHA-1; the creation and
-- joining of threads; mygetsockname and the context pointer of STCP; transport1.c, which is not
-- built; proxy and main of proxy.c, which bind the socket and fork; the accept loop of
-- Server&Client; the measurement notebook.
pub mod Http
pub mod Prelude
pub mod Router
pub mod Socket
pub mod Tcp
