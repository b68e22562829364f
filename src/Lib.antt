-- ===== src/Lib.antt =====
-- Socker: an HTTP and websocket server, and small clients and containers, as header files.
--
-- The server is Depends/Asula/Include/Asula/HttpServer.hpp. A connection (Server::doConnection)
-- reads requests. Each becomes a Session, which checks the target, reads the arguments of the query
-- and asks the HandlerRegistrar for the hook with the best matching route; without a hook, a file of
-- the server's directory is the reply. SendLambda writes the response and tells the connection
-- whether to go on. A request for an upgrade goes to the WebSocketGroupHandler instead, which passes
-- each message on to the members of the client's group.
--
-- Files, and the code that they model:
--   Http/Uri            minetype, catPath, decodeUri
--   Http/Route          Route, HandlerRegistrar::HookFunctor with operator== and operator<, splitUrl
--   Http/Match          HandlerRegistrar::match
--   Http/Session        SendLambda, Session and its replies
--   Http/Arguments      Session::parseArguments
--   Http/Registrar      HandlerRegistrar::add and process, Session::handleRequest, the list of apis
--   Http/Registrar/Table  what the registrar promises: a table of the functions for each verb and
--                       list of tokens
--   Http/Group          WebSocketGroupHandler; Writes has many of its conversations side by side,
--                       Rooms the same with each turn of a conversation as one step
--   Http/Server         Server: hooks, doConnection, doProcessRequest
--   Http/System         a running Server: listen, doListen, its connections side by side
--   Http/Whole          a running Server with its websockets: connections and conversations side by
--                       side, stop()
--   HttpClient          Depends/Asula/Include/Asula/HttpClient.hpp: Request has makeRequest,
--                       Sending has doSend and the calls on it, Life the threads, send and drop
--   WebSocketClient     Depends/Asula/Include/Asula/WebSocketClient.hpp; Life has its threads
--   Multicast           Depends/Asula/Include/Asula/MulticastReceiver.hpp
--   Prometheus          Depends/Asula/Include/Asula/{Prometheus.hpp,ServiceItf.h}: services put
--                       into a server
--   Tcp                 Depends/Asula/Include/Asula/TcpClientSync.hpp
--   Manager             Depends/Asula/Include/Asula/AbstractManager.hpp
--   Factory             Depends/Asula/Include/Asula/AbstractFactory.h
--   Context             Depends/Asula/Include/Asula/ServerContext.hpp
--   Logger              Depends/Logger: Src/Logger.cpp, the macros of Include/Logger/Logger.h
--   Text, Assoc         bytes of a std::string and its searches; std::map
--   Boost, Http/Beast   interfaces of the libraries; Boost/Reference fills the one of Boost
-- The child modules of a part hold its proofs, and Tests runs the definitions.
--
-- Names are those of the code, in lower case with underscores. A std::string is a list of bytes,
-- each a native number; an enumerator of bh::verb is its number (unknown 0, GET 2, HEAD 3); a null
-- function is none.
--
-- Libraries are parameters. Boost has the algorithms on strings, lexical_cast to a byte and
-- string_to_verb, with their documented laws; Beast has opening a file, the need of a response for
-- the end of the stream, the payload's size and the test for an upgrade; Asio has the sockets of the
-- TCP client; Spdlog has the loggers. What the network does is an argument: the error codes of the
-- next writes, the events that end the reads, whether the streams of the other clients are open. A
-- handler is a tree of calls on its session, each choosing the next by the session that it sees,
-- that ends by a return or by an exception derived from std::exception.
--
-- A running server, the conversations on websockets, and the lives of an HTTP client, a websocket
-- client and a multicast receiver are lists of events: calls, and steps of their coroutines. A step
-- of a connection, of a conversation in Http/Group/Writes and Http/Whole and of the websocket client
-- goes from one asynchronous call to the next, but a response is written within one step; a run of
-- doSend is one step, and in Http/System a whole conversation is. Steps are atomic, so a theorem
-- about all lists of events is one about all orders of them. The hooks of a server are registered
-- before it listens.
--
-- A std::set is the list of its elements in the order of iteration, with the insertion that the
-- standard gives where the comparison is a strict weak order. Assertions are compiled out. A call
-- that holds a mutex is one step. All loops are over lists, so no fuel is needed.
--
-- Not modelled: steps that run at the same time on several threads, handlers that throw other things
-- than exceptions, the lines that are logged, the mocks of Code (stubs without a body), and the code
-- of the libraries, among them the copy of spdlog.
pub mod Prelude
pub mod Text
pub mod Boost
pub mod Assoc
pub mod Http
pub mod HttpClient
pub mod Logger
pub mod WebSocketClient
pub mod Multicast
pub mod Tcp
pub mod Manager
pub mod Factory
pub mod Context
pub mod Prometheus
mod Tests
