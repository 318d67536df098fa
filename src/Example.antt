-- ===== src/Example.antt =====
-- cmd/example/main.go: the extension that is a template for the others, with one tool. The decoding of
-- the tool's arguments is encoding/json's.
mod Runs
use flynn_extensions.Prelude.{Option, none, some, ◌++◌, Bytes, codes}
use flynn_extensions.Prelude.Result.{Result, ok, err}
use flynn_extensions.McpServer.{Tool, Server, new, register}

pub data EchoError : Type 0 where
  bad_input : EchoError

module _ (unmarshal_text : Bytes → Option Bytes) where
  abbrev pub echo : Option Bytes → Result EchoError Bytes
  echo none = err bad_input
  echo (some text) = ok (codes "echo: " ++ text)

  abbrev pub echo_tool : Tool (Unit {0}) EchoError
  echo_tool = record {
    info = record {
      name = codes "example_echo";
      description =
          codes "Echo the given text back. A placeholder demonstrating the extension shape.";
      input_schema =
          codes
            "{\"type\":\"object\",\"properties\":{\"text\":{\"type\":\"string\"}},\"required\":[\"text\"]}";
    };
    handler = λ arguments st. (echo (unmarshal_text arguments), st);
  }

  unfoldable pub example_server : Bytes → Server (Unit {0}) EchoError
  example_server version = register (new (codes "example") version) echo_tool
