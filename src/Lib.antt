-- ===== src/Lib.antt =====
-- Verification of rsocket-rpc-kotlin: of its protoc plug-in, which writes Kotlin for the services of
-- a .proto file (rsocket-rpc-protobuf/src/kotlin_plugin/cpp/kotlin_generator.cpp, its header, and
-- kotlin_plugin.cpp beside it), and of the run-time library for that Kotlin (rsocket-rpc-core/src/
-- main/kotlin/io/rsocket/rpc/kotlin).
--
-- The program. protoc hands the plug-in a file's descriptors and a parameter. `reactor` reads the
-- options, finds the package's directory, and opens three files for each service: the interface,
-- the client and the server. For each, a function `Generate...` sets variables (names of classes,
-- the package) and a function `Print...` prints templates with them through protobuf's Printer,
-- line by line, with comments from the .proto file and a part for each method that depends on which
-- sides are streams and on the option for fire-and-forget. The server also sorts the methods into
-- four kinds, one for each interaction of RSocket.
--
-- A generated client encodes the names of service and method, a trace and its own metadata into a
-- frame with `Metadata`, whose constants and calls are in the generator's templates.
-- RequestHandlingRSocket reads the service's name from a request's frame and hands the request to that
-- service, for a channel with the first payload and the stream of the others, which StreamSplitter
-- makes. A generated server reads the method and, with `Tracing`, the trace. TraceOperator puts a
-- TraceSubscriber, which starts and finishes a span, between a stream and its subscriber.
--
-- Files.
--   Base           names of the libraries, bytes, lists; a text is the list of its bytes.
--   Descriptor     what the code reads of protobuf's descriptors, as records; the calls
--                  java::ClassName and ParseGeneratorParameter, as the parameter Protobuf; the macros
--                  rsocket_rpc_version and RSOCKET_RPC_VERSION, as the parameter Macros.
--   Printer        statements on `vars` and on the printer, as a list of actions in their order;
--                  `calls` runs the assignments. Spell reads the text of a template by the
--                  documentation of protobuf's Printer. Meter runs statements as a machine over
--                  indentation and brackets; Closed and Closes follow the variables that are set.
--   Names          MixedLower, ToAllUpperCase and the names made with them; laws in Laws.
--   Split          SplitStringToIteratorUsing, both branches, and Split; Fast and General prove.
--   Doc            EscapeKotlindoc to WriteMethodDocComment; Escape, Lines and Comment prove.
--   Package        ServiceKotlinPackage, KotlinPackageToDir, the package line, the version's text.
--   Interface      PrintInterface and GenerateInterface.
--   Client         PrintClient and GenerateClient; Method holds what is printed for one method.
--   Server         PrintServer and GenerateServer; Kinds sorts methods, Handlers and
--                  Channels hold the handlers.
--   Agreement      what the three files of a service agree on: constants, Routing of requests,
--                  and Overrides of functions, by the texts in Signatures.
--   Plugin         KotlinRSocketRpcGenerator: options and files.
--   Runtime        the run-time library. Common holds what its models share; Netty the interface to
--                  Netty's buffers and to strings, with the laws that their documentation states.
--                  Metadata is frames/Metadata.kt; Frame, Parts, RoundTrip and Limits prove. Tracing is
--                  the map of a trace in tracing/Tracing.kt; Rounds, RoundTrip, Totality and Delivery
--                  prove. Splitter is util/StreamSplitter.kt; Router is
--                  rsocket/RequestHandlingRSocket.kt, and Routing, Release, Channel and Delivery prove.
--                  Subscriber is tracing/TraceSubscriber.kt once it is made;
--                  Preserves and Finish prove; Threads runs `cleanup` by several threads, Alone by one.
--                  Operator is tracing/TraceOperator.kt with the constructors and makers; Spans proves.
--   Tests          the theorems at concrete inputs. Texts, Files and Agreement are about the plug-in,
--                  at the services in Services; Buffers implements the interface to Netty, and Frames,
--                  Requests and Spans are about Runtime.
-- Below Doc, Package, Interface, Client and Server, Layout is about indentation and brackets,
-- Variables about the variables of templates, Constants about the constants of methods that templates
-- name, Routes about the interactions of RSocket that they stand with, and Kept about the variables
-- that statements leave alone. What these use stands below Printer: Mentions and Routes read the
-- printer's calls, Routed joins what Routes reads, Expand gives the text of a single template, and
-- Kept the variables behind statements.
--
-- Correspondence. A C++ function in CamelCase is the definition of that name in snake_case; a long
-- one is cut into parts at its loops and branches, in the order of the source. Templates are the
-- source's string literals. A test of `client_streaming`, `server_streaming` or the option is an
-- `if` in the source's order. `#ifdef rsocket_rpc_version` with `if (!disable_version)` is
-- under_version, and XSTR is stringify.
--
-- In Runtime, an Int is its bit pattern below 2 ^ 32 and a Short one below 2 ^ 16, with sums and
-- differences reduced and `toInt` repeating the sign. What may throw gives a Result. A buffer that a
-- call writes or reads is returned anew. A handler of RequestHandlingRSocket gives its result and the
-- payloads that it released; the callbacks of StreamSplitter give the effects they have, in order; a
-- handler of TraceSubscriber is a function of the state and of the calls made so far, where a
-- parameter says of each call whether it throws. A Map<String, String> is the list of its entries.
--
-- Bounds. The loop of Split over positions runs on fuel, the number of bytes and two more, and is
-- proved never to run out; so does the loop of byteBufToMap, on one more than the readable bytes. All
-- other loops are structural. There is no machine arithmetic that can overflow in the plug-in.
--
-- Not modelled: the text that protobuf's Printer finally writes, with the spaces of indentation
-- (the calls to it are); streams and their closing; main; LogHelper and its macros, which nothing
-- uses; options.pb.cc and .h, which protoc writes; of the run-time library, RxJava's backpressure and
-- subscription, AbstractRSocketService, the annotations, the time in a span's log, calls of a tracer
-- that throw while a span is built, the order of a HashMap, and handlers of TraceSubscriber that
-- overlap outside `cleanup`; the examples, the tests and the build.
mod Base
pub mod Printer
pub mod Descriptor
pub mod Names
pub mod Split
pub mod Doc
pub mod Package
pub mod Interface
pub mod Client
pub mod Server
pub mod Agreement
pub mod Plugin
pub mod Runtime
mod Tests
