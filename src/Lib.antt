-- ===== src/Lib.antt =====
-- The HTrace web interface.
--
-- The program is the browser client of HTrace, in htrace-webapp/src/main/web/app: it asks the server
-- for trace spans, keeps them as models that refer to their parents and children, and shows them on
-- a time line. The files, with the source they model (paths below htrace-webapp/src/main/web/app):
--
--   Common         shared types, tests, list and integer lemmas, sorting, results; no source
--   Number         the numbers that are not whole, as exact fractions; no source
--   External       Underscore, Backbone collections, Moment, d3 and the canvas context, as
--                  records that are parameters
--   Tree           tree.js: treeHeight, treeTraverseDepthFirstPost, treeTraverseDepthFirstPre
--   Text           string.js: parseDate, dateToString, normalizeSpanId
--   Predicate      predicate.js: PType, its normalize and getDefaultValue, parsePType, Predicate
--   Span           span.js: parse, unparse, sortSpansByBeginTime, spanModelsToString;
--                  Span/Ajax the replies of requests
--   Store          span.js: reifyParents and reifyChildren, on a store of models
--   Store/Extent   span.js: getEarliestBegin and getLatestEnd
--   Router         router.js, about_view.js, server_info.js: the routes and the pages
--   SearchView     search_view.js and predicate_view.js: dropdownHandler, doSearch and the
--                  callbacks of its request, removePredicateView, close; SearchView/Handlers the
--                  other handlers and render
--   ResultsView    search_results_view.js: setTimes, handleBeginOrEndChange, clearHandler,
--                  getSelectedSpansOrAllSpans, zoomHandler, applyToAllSpans; and the selection by
--                  a click, from span_widget.js
--   Screen         search_results_view.js: the layout, setupWidgets, scaleCanvas; Screen/Handlers
--                  draw, render, attachEvents, remove and the handlers of the mouse and the keyboard
--   Session        query_results.js, and the search page as a whole: the form, the screen, the store,
--                  and the replies of the server
--   Drawing        the calls of the canvas context that a widget makes
--   Figures        the draw methods of triangle_button.js, partition_widget.js, span_group_widget.js
--                  and time_cursor.js; Figures/Bar those of span_widget.js
--   Events         widget_manager.js: the events and their listeners
--   Widgets        the handle methods of the five widgets, and the handle of widget_manager.js
--   Groups         the constructors of triangle_button.js, span_widget.js, span_group_widget.js
--   Details        span_widget.js: showSpanDetails
--   Viewer         another program, the HBase viewer: the page of a trace, from
--                  htrace-hbase/src/main/webapps/htrace/spans.js, with its rows in Viewer/Page; and
--                  the table of the traces, from traces.js beside it, in Viewer/Traces
--
-- How they fit together: the router switches between the pages, of which the search view is one.
-- The search view sends its predicates, which validate their values by Text, and adds what the server
-- replies to the results of the results view. The results view and the store walk the reified parents
-- and children with the traversals of Tree; the store makes models of what Span/Ajax parses. The screen
-- lays a group of span widgets out for each result, draws them, and gives the events of the page to
-- the widgets; a click changes the selection of the results view, a button asks the store for
-- relatives, and the partition changes the layout.
--
-- State. A model is named by a number, and a `Store` maps numbers to models, so that the models
-- share and mutate each other as the objects of the source do. A method that changes state takes
-- and returns it. An error that is thrown is a `Result`; a promise is a value, `pending` if it is
-- never resolved. A reply of the server is an argument of the function that asks for it, or, for a
-- search, a step of its own, so that it may arrive at any time.
--
-- Numbers. Times are integers of any size, as the source keeps them below 2 ^ 53. `setTimes` halves
-- a time span; the view keeps its times over a common denominator, so that this is exact. The layout
-- divides pixels and times: there a number is an exact fraction, with the denominator 0 for what is
-- not finite, so that the rounding of the source's floating point numbers is not modelled. The texts
-- of string.js are lists of code units; the value of a date is an `Option`, and `none` is `NaN`. `sort` of the source is taken to be stable, as the language
-- standard has it.
--
-- Fuel. The traversals take fuel, since nothing in tree.js keeps the descendants from forming a
-- cycle. The fuel that is enough is one more than the rank of the root, for any rank that falls from
-- a node to its descendants; the links that the store makes have such a rank, below the number of the
-- models, so that as much fuel as there are models is enough on the search page. For the page of a trace
-- the fuel bounds the depth of the tree that is shown. The loop of SearchView.close takes as many rounds
-- as there are predicate views.
--
-- The search page. The form and the screen share the view of the results, which Session makes one
-- state: a method of the form runs on the view of the screen, and the screen is rendered as often as
-- the method renders. A reply to a search is a list of spans, of which the store makes models.
--
-- Drawing. A draw method is the list of the calls that it makes to the canvas context, and the canvas
-- keeps the list of all of them. What a call does is the context's: its states and attributes are a
-- parameter, Graphics. Where the source changes the style sheets or the HTML of the page, nothing is
-- modelled but the handlers that a view attaches, while its canvas is in the document: `Screen` does
-- not say what `render` does after the page was left, where it throws at `getContext`, nor what the
-- handlers of one view do to those of another.
--
-- Not modelled: the HTML templates, the modal dialogs, and the log. The libraries are parameters. The
-- models of search_result.js are never made, and span_details_view.js does not parse. Of the
-- HBase viewer the requests and the labels of the axis are left out. The server, and the C
-- and Java clients are other programs of the repository.
pub mod Common
pub mod Details
pub mod Drawing
pub mod Events
pub mod External
pub mod Figures
pub mod Groups
pub mod Number
pub mod Predicate
pub mod ResultsView
pub mod Router
pub mod Screen
pub mod SearchView
pub mod Session
pub mod Span
pub mod Store
pub mod Text
pub mod Tree
pub mod Viewer
pub mod Widgets
