-- ===== src/Lib.antt =====
-- Verification of UnixProgramming: the robust I/O package, the HTTP connection of the thread-pool web
-- server, the server itself, the pools, the timers, the CGI server and two chat servers.
--
-- Base holds what the modules share: tests and lists over the native numbers, C strings, signed
-- integers, and the ways a run may end.
--
-- Rio models socket/csapp/rio.c. read(2) and write(2) are parameters (Rio/Calls) with what their
-- manual pages promise: a count of bytes taken from or put on a stream, the end of the stream, EINTR,
-- or another error. rio_readn, rio_writen, rio_read, rio_readnb, rio_readlineb and rio_readinitb keep
-- their names; the user's buffer is the list of the bytes stored. Where the int that rio_readlineb
-- counts with overflows, the model has no result (none). The loops run on fuel. Each round moves at
-- least one byte or uses up one of the signals that are still to arrive, so fuel above their sum is
-- enough; the theorems show this.
--
-- HttpConn models socket/pool/http_conn.h and http_conn.cpp. HttpConn.antt has the types and the
-- record of the fields, where a pointer into m_read_buf is an offset; HttpConn/Connection opens,
-- resets, closes and reads; HttpConn/ParseLine is parse_line, which is also that of
-- socket/http/http_readParse.cpp; HttpConn/Request has parse_request_line, pares_headers and
-- pares_content; HttpConn/ReadMachine has process_read and do_request; HttpConn/Response has
-- add_response with its callers and process_write; HttpConn/Send has unmap, write and process. A
-- connection is used by one thread at a time (EPOLLONESHOT), so each function is a function on the
-- record. The file system, recv and writev are arguments: Files, and lists of results. An access
-- outside an array, an atoi beyond int and a sum of ints that overflows are a fault (none, Run.fault). process_read runs on
-- fuel of twice the read index and three, which process_read-IsConn shows to be enough.
--
-- ProcessPool models the two event loops of socket/pool/processpool.h: ProcessPool.antt the parent's
-- (run_parent: the choice of a child for a connection, SIGCHLD, SIGTERM and SIGINT), and
-- ProcessPool/Child a child's (run_child). What epoll_wait, recv, waitpid and accept give comes as
-- lists of events, and sends, kills and calls of the handler type T go out as lists of actions. The
-- search for a live child runs on as many steps as there are children, which dispatch-Dispatched shows
-- to be enough.
--
-- ThreadPool models socket/pool/threadpool.h with sem and locker of socket/thread/locker.h. A thread's
-- place in run() or append() is a value, a step of a thread is the code up to its next access to what
-- the threads share, and ThreadPool.Step lets any thread move next. pthread_mutex_lock and sem_post
-- succeed; sem_wait may come back without a unit, as when a signal breaks it off.
--
-- TimeWheel models socket/timer/time_wheel_timer.h: add_timer, del_timer and tick on 60 lists of
-- timers. The links of a slot's list are the order of that list; a node is known by its address, which
-- stands for its callback too.
--
-- TimerList models sort_timer_list of socket/timer/sigalrm_list_timer.h on a memory of nodes, where a
-- read through a pointer to no node faults (none). TimerList/Chain says what a doubly linked list
-- stands for; Loop and Insert are about add_timer, Unlink and Bypass about a node that is taken out,
-- Delete, Adjust and Tick about the other operations, and Order about the order of expiry. The loops
-- run on fuel, for which any number above the list's length is enough. InactiveLinks models
-- socket/timer/handling_inactive_link.cpp over it: accept, data, signals and timer_handler, where what
-- the system calls give is in the events, and the descriptors that cb_func closes are recorded.
--
-- TimeHeap models socket/timer/time_heap_timer.h: the array of pointers, with cur_size and capacity,
-- over a memory of timers, and every operation of time_heap. An access outside of the array, or
-- through a pointer to no timer, is none. TimeHeap/Array, Hole, Down and Pop are about the hole that
-- percolate_down moves, Tick about tick, and Built about the constructor that is given timers. The
-- loop of percolate_down runs on fuel of cur_size, as each round goes to a greater index, and that of
-- tick on one more than there are timers, as each round takes one off.
--
-- CgiServer models cgi_conn of socket/pool/cgi_server.cpp, the handler that the process pool is
-- started with: init and process. The results of recv are a list; whether the file is there and how
-- fork ends are arguments. CgiServer/Scan is about the search for the end of the line, Line about
-- lines in what was received, and Request about calls of process.
--
-- SharedChat models socket/ipc/shm.c: SharedChat.antt the loop of the main process (accept, the
-- signals, the messages of children), with users, sub_process and user_count, and SharedChat/Child the
-- loop of a child, over the shared memory. What epoll_wait, accept, fork, waitpid and recv give comes
-- in events, and what the processes do goes out as lists of actions.
--
-- PollChat models the loop of socket/io_multiplexing/io_chatroom_server.c, with fds, user_counter and
-- users. What poll, accept and recv give in a round is an argument (Calls). PollChat/Room says what a
-- table in order is, Turns is about single entries, Told about messages, Arrival about connections,
-- and Visit and Round about the loops. The loop over the entries runs on fuel of their number and
-- three: a turn goes on by an entry or takes one out, and only the first turn adds one.
--
-- FirstParser models socket/http/http_readParse.cpp, an earlier version of the parser: parse_line, and
-- parse_requestline on the bytes from `temp` on. FirstParser/Cut and Version are about texts
-- that are cut at a space, and Accepts about the lines that are requests.
--
-- WebServer models the loop of socket/pool/main.cpp over HttpConn's operations: connections, hang-ups,
-- reads and writes, with the queue of the thread pool as a list of descriptors. on_work is a turn of
-- a worker thread (run of socket/pool/threadpool.h); each call on a connection is one step, as the
-- connection is used by one thread at a time. main and the threads change m_user_count with
-- no lock, so its value is not a state of the model: it comes with each event. WebServer/Conn, Calls
-- and Process say what a call leaves of a connection, and Serves and Events are about the table.
--
-- Not modelled: the socket, epoll, poll, fcntl, mmap, fork and signal calls themselves, whose results
-- are arguments or are recorded as effects, with the set-up in front of the loops and the asserts on
-- it; printing; the small programs under apue and socket that only call the system; the web server
-- and the echo servers under socket/csapp, the HTTP clients and the demonstrations of
-- socket/io_multiplexing, which are calls of the system for the most part.
pub mod Base
pub mod Rio
pub mod HttpConn
pub mod ThreadPool
pub mod ProcessPool
pub mod TimerList
pub mod InactiveLinks
pub mod TimeWheel
pub mod SharedChat
pub mod TimeHeap
pub mod CgiServer
pub mod PollChat
pub mod FirstParser
pub mod WebServer
