-- ===== src/SearchView/Handlers.antt =====
-- search_view.js: the handlers of the buttons and of the time fields, which call the results view, and
-- the rendering of the form.
use htrace.Common.{ℕ, true}
use htrace.External.{Collection, Moment}
use htrace.Text.{Text}
use htrace.ResultsView.{render, zoom_handler, clear_handler, TimeField, handle_begin_or_end_change}
use htrace.SearchView.{SearchView}

-- `clearHandler` and `zoomHandler` of the form, and the two handlers of its time fields.
unfoldable pub clear_button_handler : (fuel : ℕ) → Collection → SearchView → SearchView
unfolding clear_handler
clear_button_handler fuel collection view = record view {
  results_view = clear_handler fuel collection true view.results_view;
}

unfoldable pub zoom_button_handler : (fuel : ℕ) → SearchView → SearchView
unfolding zoom_handler
zoom_button_handler fuel view = record view { results_view = zoom_handler fuel view.results_view }

unfoldable pub blur_handler : Moment → TimeField → Text → SearchView → SearchView
unfolding handle_begin_or_end_change
blur_handler moment field text view = record view {
  results_view = handle_begin_or_end_change moment field text view.results_view;
}

-- `render`
unfoldable pub render_search_view : SearchView → SearchView
render_search_view view = record view { results_view = render view.results_view }
