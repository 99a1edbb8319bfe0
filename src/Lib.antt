-- ===== src/Lib.antt =====
-- A verification of jonson, a Go library that serves procedures over HTTP and websockets as JSON-
-- RPC and resolves their arguments from a context of providers.
--
-- The parts and where they are. A transport (http.handler.go: Http; server.go: Server) hands a
-- request to the method handler (method.handler.go). Method.Messages is processRpcMessages and
-- processRpcMessage: it reads a body as messages and runs each under a new context. Method.Call is
-- callMethod, which collects the arguments and runs the handler, and CallMethod, with which one
-- procedure calls another. Method.Register is RegisterMethod and RegisterSystem; Names is kebab-
-- case.go, pascal-case.go, and the names of methods and endpoints. Factory is
-- RegisterProviderFunc, RegisterProvider and (Make) NewFactory of factory.go, and Log is log.go,
-- the loggers that a factory provides. Context is context.go and the rest of factory.go: the
-- values of a call, Require, and (Context.Final) Finalize; Context.Typed is about the types of
-- values, and the accessors such as RequirePrivate, and Context.AsMap compares a context with a
-- finite map. Validate is validate.go, Rpc and Errors are rpc.go and error.go, Auth is auth.go and
-- impersonate.go. Secret is secret.go, with the base64 of the standard library in Base64.
-- Websocket is ws.handler.go: the goroutines of a client are steps on its state. Graceful is
-- graceful.go and jonsontest/graceful.go, again as steps. Generator is cmd/generate/main.go, from
-- a package's syntax tree to the texts of the generated files. Jonsontest is jonsontest/auth.go
-- and (Boundary, Runs) jonsontest/jonsontest.go; Clock is time.go and jonsontest/time.go.
-- Errors.Print is the printing of errors. Types and Value are the reflected types and the values
-- that a context can hold. Prelude and Text are shared helpers; Scenario is the small application
-- on which the tests run, and Example is the one of internal/example, with its generated calls
-- (Client) and its tests (AccountTests).
--
-- How code is modelled. Code of the library's users (providers, procedures, the auth client) is a
-- program, a tree of the calls that it makes on its context (Context.Prog); Context.Run.run gives
-- its outcome (a value, a panic, waiting for a mutex, out of fuel) and its state. The state is the
-- context of the moment, the Public values that contexts share, and the finalizers that were
-- called. Goroutines that share a Public are steps (Auth.Callers). A context's items are a list
-- with an address each, as the code holds pointers. Validators are scripts in the same way.
-- Regular expressions and slices of strings are functions on lists of character codes; identifiers
-- are ASCII. Numbers are natural numbers, with the bound of 2^64 - 1 of strconv.ParseUint written
-- out; ids and codes are compared, not computed with.
--
-- Parameters. The JSON decoder and encoder, the stack trace, the names of calling functions, the
-- panics of failed type assertions, the headers of a request in the example, and the encoder of
-- debug texts are arguments of the definitions that use them, without hypotheses. So are the
-- values that the types of users have. What a params type decodes to, and its validation, are
-- fields of ParamsType. The block cipher of secrets is an argument; its round trip assumes that a
-- cipher exists for each key of a size that crypto/aes accepts and that it maps blocks to blocks.
-- The calendar of package time is an argument; its laws (Clock.Reference.IsCalendar) are that
-- durations can be added in any order and that the time since an instant, added to it, is now.
--
-- Fuel. Require takes fuel for providers that require one another; one more than the number of
-- providers is enough where providers are local (Context.Run.Total). CallMethod takes fuel for
-- procedures that call one another: a procedure can call itself for ever.
--
-- Not modelled: errors with nil entries among their details or with details that contain
-- themselves, the lines that loggers write, deadlines of contexts, finalizers that panic or use
-- the context, what direct handlers write, two goroutines in one procedure, GetFreePort, the
-- listening of the example, and the reading of packages by the generator. They are the standard
-- library's work or only pass values on, or their state is not the library's.
pub mod Auth
pub mod Base64
pub mod Clock
pub mod Context
pub mod Errors
pub mod Example
pub mod Factory
pub mod Generator
pub mod Graceful
pub mod Http
pub mod Jonsontest
pub mod Log
pub mod Method
pub mod Names
pub mod Prelude
pub mod Rpc
pub mod Scenario
pub mod Secret
pub mod Server
pub mod Text
pub mod Types
pub mod Validate
pub mod Value
pub mod Websocket
